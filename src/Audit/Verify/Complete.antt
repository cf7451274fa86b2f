-- ===== src/Audit/Verify/Complete.antt =====
-- The walk of internal/audit/verify.go over a chain that is read in order.
use nodary.Prelude.{
  ℕ, zero, suc, ◌+◌, ◌≤◌, ◌<◌, String, ◌≡◌, ◌⊎◌, inl, inr, refl, sym, ◌∙◌, ap, false, Option, none,
  some, List, [], ◌∷◌, ◌++◌, arith, length, length-map, leb, leb→le, Bool-cases, Option-cases,
  eq_iff, map,
}
use mathlib.Core.List.{append_assoc, append-nil}
use nodary.Audit.Record.{Record}
use nodary.Audit.Verify.{
  Result, reorder_window, start_walk, Item, readable, Walk, held, filled, fill, offer, hold,
  inspect, settle, count, finish, delete, walk_from, lowest, lowest_from, join, VerifyOpts,
  walk_started, verify,
}
use nodary.Audit.Verify.Spec.{Links}
use nodary.Audit.Verify.Steps.{joined, round_end, round_next, started_next, verify_next}

module _ (compute : Record → Option String) where
  -- Numbers past the end of a contiguous run are not held.
  held_past :
      (i : String) (n : ℕ) (h : String) (rs rest : List Record) (r : Record)
      → Links compute i n h (rs ++ r ∷ rest)
      → (held r.seq rs ≡ none) × (n < r.seq)
  unfolding held
  held_past i n h [] rest r l = (refl, omega arith)
  held_past i n h (x ∷ rs) rest r l = ground (arith, held_past i x.seq x.hash rs rest r l.4)

  offer_hold :
      (i : String) (n : ℕ) (h : String) (w : Walk) (r : Record) (rest : List Record)
      → Links compute i n h (w.pending ++ r ∷ rest)
      → ((p : Record) → w.prev ≡ some p → w.next ≡ suc n)
      → offer compute w r ≡ hold
  unfolding offer
  offer_hold i n h w r rest l p =
      let (fresh, past) = held_past i n h w.pending rest r l in
      elim (Option-cases w.prev) [
        | inl e ↦ ground (arith, fresh)
        | inr (q, e) ↦ ground (arith, fresh, p q e)
      ]

  -- The state from which the records `rs` are held and `rest` is still to be read, in order.
  record InOrder (i : String) (n : ℕ) (h : String) (w : Walk) (todo : List Record) : Type 0 where
    rest : List Record
    items : w.items ≡ map readable rest
    split : w.pending ++ rest ≡ todo
    clean : w.source_err ≡ false
    links : Links compute i n h todo

  -- Reading in order holds every record.
  fill-InOrder :
      (k : ℕ) (i : String) (n : ℕ) (h : String) (w : Walk) (rest todo : List Record)
      → w.pending ++ rest ≡ todo
      → Links compute i n h todo
      → ((p : Record) → w.prev ≡ some p → w.next ≡ suc n)
      → w.source_err ≡ false
      → (w' : Walk) × (fill compute k w (map readable rest) ≡ filled w')
        × InOrder i n h w' todo
        × ((w'.prev ≡ w.prev)
            × (w'.next ≡ w.next)
            × (w'.install ≡ w.install)
            × ((k ≤ length w'.pending) ⊎ (w'.items ≡ [])))
  unfolding fill
  fill-InOrder k i n h w [] todo s l p c = (
    record w { items = [] },
    refl,
    record { rest = []; items = refl; split = s; clean = c; links = l },
    (refl, refl, refl, inr refl),
  )
  fill-InOrder k i n h w (r ∷ rest) todo s l p c = elim (Bool-cases (leb k (length w.pending))) [
    | inl full ↦ (
      record w { items = readable r ∷ map readable rest },
      rw full,
      record { rest = r ∷ rest; items = refl; split = s; clean = c; links = l },
      (refl, refl, refl, inl (leb→le k (length w.pending) full)),
    )
    | inr more ↦
        let (w', f, o, keeps) =
          fill-InOrder k i n h (record w { pending = w.pending ++ r ∷ [] }) rest todo
            (append_assoc w.pending (r ∷ []) rest ∙ s) l p c in
        (w', rw (more, offer_hold i n h w r rest (rw s l) p) f, o, keeps)
  ]

  abbrev Enough : Walk → Type 0
  Enough w = (reorder_window ≤ length w.pending) ⊎ (w.items ≡ [])

  map-readable-nil : (rest : List Record) → map readable rest ≡ [] → rest ≡ []
  map-readable-nil [] e = refl
  map-readable-nil (r ∷ rest) e = cc

  -- The next record of the chain is the first that is held.
  front :
      (i : String) (n : ℕ) (h : String) (w : Walk) (r : Record) (todo : List Record)
      → (o : InOrder i n h w (r ∷ todo)) → Enough w
      → (ps : List Record) × (w.pending ≡ r ∷ ps) × (ps ++ o.rest ≡ todo)
  front i n h w r todo o enough = go w.pending refl
    where
      go :
          (ps : List Record)
          → w.pending ≡ ps
          → (ps : List Record) × (w.pending ≡ r ∷ ps) × (ps ++ o.rest ≡ todo)
      go [] e = elim enough [
        | inl many ↦ absurd (ground (arith, many))
        | inr done ↦
            absurd
              (cc (o.split, e, map-readable-nil o.rest (sym o.items ∙ done), append-nil w.pending))
      ]
      go (x ∷ ps) e = let s : x ∷ (ps ++ o.rest) ≡ r ∷ todo = rw e at o.split in (ps, cc, cc)

  inspect-link :
      (w : Walk) (r : Record)
      → ((p : Record) → w.prev ≡ some p → (r.install ≡ w.install) × (r.prev_hash ≡ p.hash))
      → compute r ≡ some r.hash
      → inspect compute w r ≡ none
  unfolding inspect
  inspect-link w r l c = elim (Option-cases w.prev) [
    | inl e ↦ ground (arith, c, eq_iff r.hash r.hash)
    | inr (p, e) ↦
        let (a, b) = l p e in
        ground
          (arith, c, eq_iff r.hash r.hash, eq_iff r.install w.install, eq_iff r.prev_hash p.hash)
  ]

  -- What the loop adds to its result over the records `todo`.
  record Accepts (n : ℕ) (todo : List Record) (res out : Result) : Type 0 where
    problem : out.problem ≡ res.problem
    records : out.records ≡ res.records + length todo
    last_seq : out.last_seq ≡ n + length todo
    first_seq : out.first_seq ≡ res.first_seq
    fragment : out.fragment ≡ res.fragment
    anchored : out.anchored ≡ res.anchored
    first_prev_hash : out.first_prev_hash ≡ res.first_prev_hash

  -- A round on the first held record `r`, in order.
  round-InOrder :
      (i : String) (n : ℕ) (h : String) (w : Walk) (r : Record) (todo : List Record) (fuel : ℕ)
      (res : Result)
      → (o : InOrder i n h w (r ∷ todo)) → Enough w
      → w.next ≡ suc n
      → ((p : Record) → w.prev ≡ some p → (r.install ≡ w.install) × (r.prev_hash ≡ p.hash))
      → (w' : Walk) × (walk_from compute (suc fuel) w res
          ≡ walk_from compute fuel w' (count w r res))
        × InOrder i r.seq r.hash w' todo
        × (w'.prev ≡ some r)
        × (w'.next ≡ suc r.seq)
        × (w'.install ≡ (settle w r).install)
        × Enough w'
  unfolding settle held delete
  round-InOrder i n h w r todo fuel res o enough next link =
      let (ps, e, s) = front i n h w r todo o enough in
      let found : held w.next w.pending ≡ some r = rw (e, next) (ground (arith, o.links)) in
      let left : delete w.next w.pending ≡ ps = rw (e, next) (ground (arith, o.links)) in
      let (w', f, o', (prev, next', install, enough')) =
        fill-InOrder reorder_window i r.seq r.hash (settle w r) o.rest todo (rw left s) o.links.4
          (λ p q. omega (arith, next, o.links)) o.clean in
      (
        w',
        round_next compute fuel w res r found w' (inspect-link w r link o.links.3) (
            ap (λ (items : List Item). fill compute reorder_window (settle w r) items) o.items ∙ f),
        o',
        prev,
        omega (arith, next, next', o.links),
        install,
        enough',
      )

  append-eq-nil : (xs ys : List Record) → xs ++ ys ≡ [] → xs ≡ []
  append-eq-nil [] ys e = refl
  append-eq-nil (x ∷ xs) ys e = cc

  finish-InOrder :
      (i : String) (n : ℕ) (h : String) (w : Walk) (res : Result)
      → InOrder i n h w []
      → (held w.next w.pending ≡ none) × (finish w res ≡ res)
  unfolding held finish
  finish-InOrder i n h w res o =
      let e = append-eq-nil w.pending o.rest o.split in (rw e, rw (o.clean, e))

  settle-install : (w : Walk) (r p : Record) → w.prev ≡ some p → (settle w r).install ≡ w.install
  unfolding settle
  settle-install w r p e = ground arith

  Accepts-cons :
      (n : ℕ) (w : Walk) (r : Record) (todo : List Record) (res out : Result)
      → r.seq ≡ suc n
      → Accepts r.seq todo (count w r res) out
      → Accepts n (r ∷ todo) res out
  unfolding count
  Accepts-cons n w r todo res out e a = record {
    problem = a.problem;
    records = omega (arith, a.records);
    last_seq = omega (arith, a.last_seq);
    first_seq = a.first_seq;
    fragment = a.fragment;
    anchored = a.anchored;
    first_prev_hash = a.first_prev_hash;
  }

  walk_from-InOrder :
      (fuel : ℕ) (i : String) (w : Walk) (res : Result) (p : Record) (todo : List Record)
      → InOrder i p.seq p.hash w todo
      → Enough w
      → w.prev ≡ some p
      → w.next ≡ suc p.seq
      → w.install ≡ i
      → res.last_seq ≡ p.seq
      → length todo < fuel
      → (out : Result) × (walk_from compute fuel w res ≡ some out) × Accepts p.seq todo res out
  unfolding count
  walk_from-InOrder zero i w res p todo o enough e next inst last lt = elim lt [ ]
  walk_from-InOrder (suc fuel) i w res p [] o enough e next inst last lt =
      let (h, f) = finish-InOrder i p.seq p.hash w res o in
      (
        res,
        round_end compute fuel w res h ∙ ap some f,
        record {
          problem = refl;
          records = omega arith;
          last_seq = omega (arith, last);
          first_seq = refl;
          fragment = refl;
          anchored = refl;
          first_prev_hash = refl;
        },
      )
  walk_from-InOrder (suc fuel) i w res p (r ∷ todo) o enough e next inst last lt =
      let (w', step, o', prev', next', inst', enough') =
        round-InOrder i p.seq p.hash w r todo fuel res o enough next
          (λ q h. (o.links.0 ∙ sym inst, cc (o.links.2, e, h))) in
      let (out, run, a) =
        walk_from-InOrder fuel i w' (count w r res) r todo o' enough' prev' next'
          (inst' ∙ settle-install w r p e ∙ inst) refl (omega (arith, lt)) in
      (out, step ∙ run, Accepts-cons p.seq w r todo res out o.links.1 a)

  lowest_from-in_order :
      (i : String) (m : ℕ) (h : String) (out : ℕ) (ps rest : List Record)
      → 0 < out
      → out ≤ m
      → Links compute i m h (ps ++ rest)
      → lowest_from out ps ≡ out
  unfolding lowest_from
  lowest_from-in_order i m h out [] rest pos le l = refl
  lowest_from-in_order i m h out (x ∷ ps) rest pos le l =
      ground (arith, l.1, lowest_from-in_order i x.seq x.hash out ps rest)

  settle-first : (w : Walk) (r : Record) → w.prev ≡ none → (settle w r).install ≡ r.install
  unfolding settle
  settle-first w r e = ground arith

  -- The first record of a chain in order is the lowest that is held.
  start-InOrder :
      (i : String) (n : ℕ) (h : String) (w : Walk) (r : Record) (todo : List Record)
      → InOrder i n h w (r ∷ todo)
      → Enough w
      → (lowest w.pending ≡ r.seq) × (held r.seq w.pending ≡ some r)
  unfolding lowest lowest_from held
  start-InOrder i n h w r todo o enough =
      let (ps, e, s) = front i n h w r todo o enough in
      (
        rw e (
            lowest_from-in_order i r.seq r.hash r.seq ps o.rest (omega (arith, o.links.1))
              (omega arith) (rw s o.links.4)),
        rw e (ground arith),
      )

  joined_fields :
      (opts : VerifyOpts) (w : Walk) (r : Record)
      → (join opts r).problem ≡ none
      → ((joined opts w r).problem ≡ none) × ((joined opts w r).records ≡ 0)
  unfolding join
  joined_fields opts w r j = ground arith

  -- The walk after the first reading, on a chain in order.
  started-InOrder :
      (i : String) (n : ℕ) (h : String) (w : Walk) (r : Record) (rs : List Record) (fuel : ℕ)
      (opts : VerifyOpts)
      → InOrder i n h w (r ∷ rs)
      → Enough w
      → w.prev ≡ none
      → (join opts r).problem ≡ none
      → length rs < fuel
      → (out : Result) × (walk_started compute (suc fuel) opts w ≡ some out)
        × Accepts n (r ∷ rs) (joined opts w r) out
  unfolding count
  started-InOrder i n h w r rs fuel opts o enough e j lt =
      let (low, found) = start-InOrder i n h w r rs o enough in
      let w₀ : Walk = record w { next = lowest w.pending } in
      let res : Result = joined opts w r in
      let o₀ : InOrder i n h w₀ (r ∷ rs) = record {
        rest = o.rest;
        items = o.items;
        split = o.split;
        clean = o.clean;
        links = o.links;
      } in
      let (w', step, o', prev', next', inst', enough') =
        round-InOrder i n h w₀ r rs fuel res o₀ enough (low ∙ o.links.1)
          (λ q g. absurd (cc (e, g))) in
      let (out, run, a) =
        walk_from-InOrder fuel i w' (count w₀ r res) r rs o' enough' prev' next'
          (inst' ∙ settle-first w₀ r e ∙ o.links.0) refl lt in
      (
        out,
        started_next compute (suc fuel) opts w r (ap (λ (m : ℕ). held m w.pending) low ∙ found) j
            ∙ (step ∙ run),
        Accepts-cons n w₀ r rs res out o.links.1 a,
      )

  -- A chain of at least one record, each after the other, verifies from where the caller expects it
  -- to begin, and the result counts its records.
  pub verify-InOrder :
      (i : String) (n : ℕ) (h : String) (r : Record) (rs : List Record) (opts : VerifyOpts)
      → Links compute i n h (r ∷ rs)
      → (join opts r).problem ≡ none
      → (out : Result) × (verify compute (map readable (r ∷ rs)) opts ≡ some out)
        × (out.problem ≡ none)
        × (out.records ≡ length (r ∷ rs))
        × (out.first_seq ≡ r.seq)
        × (out.last_seq ≡ n + length (r ∷ rs))
        × (out.anchored ≡ (join opts r).anchored)
        × (out.fragment ≡ (join opts r).fragment)
        × (out.first_prev_hash ≡ r.prev_hash)
  verify-InOrder i n h r rs opts l j =
      let items : List Item = map readable (r ∷ rs) in
      let (w, f, o, (prev, _, _, enough)) =
        fill-InOrder reorder_window i n h (start_walk items) (r ∷ rs) (r ∷ rs) refl l
          (λ p q. absurd (cc (q))) refl in
      let (out, run, a) =
        started-InOrder i n h w r rs (length items) opts o enough prev j
          (omega (arith, length-map readable rs)) in
      let (good, zero_records) = joined_fields opts w r j in
      let (low, _) = start-InOrder i n h w r rs o enough in
      (
        out,
        verify_next compute items opts w f ∙ run,
        a.problem ∙ good,
        omega (arith, a.records, zero_records),
        a.first_seq ∙ low,
        a.last_seq,
        a.anchored,
        a.fragment,
        a.first_prev_hash,
      )
