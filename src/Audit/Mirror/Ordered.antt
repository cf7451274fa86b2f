-- ===== src/Audit/Mirror/Ordered.antt =====
-- `bySequence` of internal/audit/verify.go on a file that is in order.
use nodary.Prelude.{
  ℕ, zero, suc, ◌<◌, ◌≤◌, ◌≡◌, refl, sym, ap, ◌∙◌, true, false, ◌||◌, none, some, List, [], ◌∷◌,
  ◌++◌, ltb, length, ◌==◌, arith, map, Bool-cases, ◌⊎◌, inl, inr, subst, length-map,
}
use mathlib.Core.List.{append_assoc}
use nodary.Audit.Record.{Record}
use nodary.Audit.Verify.{readable, held, delete, lowest, lowest_from}
use nodary.Audit.Mirror.{gathered, is_repeat, hold_last, gather, sequence_from, by_sequence}
use nodary.Audit.Mirror.Counts.{Ascending}

-- Past the end of an ascending run nothing is held.
pub held_end :
    (n : ℕ) (rs rest : List Record) (r : Record)
    → Ascending n (rs ++ r ∷ rest)
    → (held r.seq rs ≡ none) × (n < r.seq) × (delete r.seq rs ≡ rs)
unfolding held delete
held_end n [] rest r a = (refl, a.0, refl)
held_end n (x ∷ rs) rest r a =
    let (h, less, d) = held_end x.seq rs rest r a.1 in
    (ground (arith, h, less), omega (arith, less, a.0), ground (arith, less, d))

record Gathering (window : ℕ) (pending todo : List Record) : Type 0 where
  ahead : List Record
  rest : List Record
  reads : gather window pending (map readable todo) ≡ gathered ahead (map readable rest)
  whole : ahead ++ rest ≡ pending ++ todo
  some_read : (ahead ≡ []) → (rest ≡ []) ⊎ (window ≡ 0)

gather-Ascending :
    (window n : ℕ) (pending todo : List Record)
    → Ascending n (pending ++ todo)
    → Gathering window pending todo
unfolding gather
gather-Ascending window n pending [] a = record {
  ahead = pending;
  rest = [];
  reads = refl;
  whole = refl;
  some_read = λ e. inl refl;
}
gather-Ascending window n pending (r ∷ todo) a =
    let (h, _, d) = held_end n pending todo r a in
    elim (Bool-cases (ltb (length pending) window)) [
      | inl e ↦
          let again = gather-Ascending window n (pending ++ r ∷ []) todo (
            subst (λ (z : List Record). Ascending n z) {x = pending ++ r ∷ todo}
              {y = (pending ++ r ∷ []) ++ todo} (sym (append_assoc pending (r ∷ []) todo)) a) in
          record {
            ahead = again.ahead;
            rest = again.rest;
            reads = rw (gather, e, is_repeat, h, hold_last, d) again.reads;
            whole = again.whole ∙ append_assoc pending (r ∷ []) todo;
            some_read = again.some_read;
          }
      | inr e ↦ record {
        ahead = pending;
        rest = r ∷ todo;
        reads = rw (gather, e);
        whole = refl;
        some_read = λ q. inr (no_room pending q e);
      }
    ]
  where
    no_room : (p : List Record) → p ≡ [] → ltb (length p) window ≡ false → window ≡ 0
    no_room [] q e = ground (arith, e)
    no_room (x ∷ p) q e = absurd (cc q)

lowest_first :
    (n : ℕ) (least : ℕ) (rs : List Record)
    → 0 < least
    → least ≤ n
    → Ascending n rs
    → lowest_from least rs ≡ least
unfolding lowest_from
lowest_first n least [] pos le a = refl
lowest_first n least (r ∷ rs) pos le a =
    let later : ((least == 0) || ltb r.seq least) ≡ false = ground (arith, pos, le, a.0) in
    rw (lowest_from, later) (lowest_first r.seq least rs pos (omega (arith, le, a.0)) a.1)

-- The first of an ascending run is the lowest, and what is left of the run without it.
drawn :
    (n : ℕ) (r : Record) (rs : List Record)
    → Ascending n (r ∷ rs)
    → (held (lowest (r ∷ rs)) (r ∷ rs) ≡ some r) × (delete (lowest (r ∷ rs)) (r ∷ rs) ≡ rs)
unfolding held delete lowest lowest_from
drawn n r rs a =
    let low : lowest (r ∷ rs) ≡ r.seq =
      lowest_first r.seq r.seq rs (omega (arith, a.0)) (omega arith) a.1 in
    let own : (r.seq == r.seq) ≡ true = ground arith in (rw (low, held, own), rw (low, delete, own))

pub Ascending-append : (n : ℕ) (xs ys : List Record) → Ascending n (xs ++ ys) → Ascending n xs
Ascending-append n [] ys a = tt
Ascending-append n (x ∷ xs) ys a = (a.0, Ascending-append x.seq xs ys a.1)

sequence_from-Ascending :
    (fuel window n : ℕ) (pending todo : List Record)
    → 0 < window
    → Ascending n (pending ++ todo)
    → length (pending ++ todo) < fuel
    → sequence_from fuel window pending (map readable todo) ≡ some (map readable (pending ++ todo))
unfolding sequence_from held
sequence_from-Ascending zero window n pending todo w a enough = absurd (omega (arith, enough))
sequence_from-Ascending (suc fuel) window n pending todo w a enough =
    let g = gather-Ascending window n pending todo a in
    go g.ahead g.rest g.reads g.whole g.some_read
      (λ m ahead rest up less. sequence_from-Ascending fuel window m ahead rest w up less)
  where
    nothing : {xs : List Record} → (xs ≡ []) ⊎ (window ≡ 0) → xs ≡ []
    nothing (inl e) = e
    nothing (inr z) = absurd (omega (arith, w, z))

    go :
        (ahead rest : List Record)
        → gather window pending (map readable todo) ≡ gathered ahead (map readable rest)
        → ahead ++ rest ≡ pending ++ todo
        → ((ahead ≡ []) → (rest ≡ []) ⊎ (window ≡ 0))
        → ((m : ℕ) (ahead rest : List Record)
            → Ascending m (ahead ++ rest)
            → length (ahead ++ rest) < fuel
            → sequence_from fuel window ahead (map readable rest)
              ≡ some (map readable (ahead ++ rest)))
        → sequence_from (suc fuel) window pending (map readable todo)
          ≡ some (map readable (pending ++ todo))
    go [] rest reads whole some_read further =
        let none_left : rest ≡ [] = nothing (some_read refl) in
        let all : pending ++ todo ≡ [] = sym whole ∙ none_left in rw (sequence_from, reads, all)
    go (r ∷ ahead) rest reads whole some_read further =
        let up =
          subst (λ (z : List Record). Ascending n z) {x = pending ++ todo} {y = (r ∷ ahead) ++ rest}
            (sym whole) a in
        let (found, left) = drawn n r ahead (Ascending-append n (r ∷ ahead) rest up) in
        let sizes : suc (length (ahead ++ rest)) ≡ length (pending ++ todo) =
          ap (λ (z : List Record). length z) whole in
        let tail = further r.seq ahead rest up.1 (omega (arith, enough, sizes)) in
        rw (sequence_from, reads, found, left, tail, sym whole)

pub by_sequence-Ascending :
    (window : ℕ) (fs : List Record)
    → 0 < window
    → Ascending 0 fs
    → by_sequence window (map readable fs) ≡ some (map readable fs)
unfolding by_sequence
by_sequence-Ascending window fs w a =
    sequence_from-Ascending (suc (length (map readable fs))) window 0 [] fs w a
      (omega (arith, length-map readable fs))
