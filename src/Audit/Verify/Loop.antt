-- ===== src/Audit/Verify/Loop.antt =====
-- The loop of `verify`, from a state in which a record was accepted: what it accepts continues the
-- chain, and covers all that was held and all that was still to be read.
use nodary.Prelude.{
  ℕ, zero, suc, ◌+◌, ◌≤◌, String, ◌≡◌, ◌⊎◌, inl, inr, refl, sym, ◌∙◌, false, Option, none, some,
  List, [], ◌∷◌, arith, length, All, subst, Option-cases, eq_iff,
}
use nodary.Audit.Record.{Record}
use nodary.Audit.Verify.{
  Result, reorder_window, Item, readable, damaged, Walk, held, filled, fill, inspect, settle, count,
  finish, walk_from,
}
use nodary.Audit.Verify.Spec.{AllRead, EachRead, Links, Covers}
use nodary.Audit.Verify.Reading.{
  held-All, fill-taken, All-delete, Reads, fill-Reads, fill-reads_all, Kept, held-seq,
  Covers-Delivers, All-undelete,
}
use nodary.Audit.Verify.Steps.{Fill-cases, no_fuel, round_end, round_stop, round_broke, round_next}

module _ (compute : Record → Option String) (T : Record → Type 0) where
  pub inspect_self : (w : Walk) (r : Record) → inspect compute w r ≡ none → compute r ≡ some r.hash
  unfolding inspect
  inspect_self w r h = elim (Option-cases (compute r)) [
    | inl n ↦ ground (arith, n)
    | inr (c, s) ↦ ground (arith, s, eq_iff c r.hash)
  ]

  inspect-prev :
      (w : Walk) (r p : Record)
      → w.prev ≡ some p
      → inspect compute w r ≡ none
      → (r.install ≡ w.install) × (r.prev_hash ≡ p.hash)
  unfolding inspect
  inspect-prev w r p e h = ground (arith, eq_iff r.install w.install, eq_iff r.prev_hash p.hash)

  -- The walk from `w`, after a record of number `n` and hash `h`, ends in `out` without a break.
  pub record Continues (i : String) (n : ℕ) (h : String) (w : Walk) (res out : Result)
      : Type 0 where
    pub rest : List Record
    pub links : Links compute i n h rest
    pub clean : w.source_err ≡ false
    pub kept : Kept compute (Covers compute rest) w
    pub taken : All T w.pending → EachRead T w.items → All T rest
    pub records : out.records ≡ res.records + length rest
    pub last_seq : out.last_seq ≡ n + length rest
    pub first_seq : out.first_seq ≡ res.first_seq
    pub fragment : out.fragment ≡ res.fragment

  abbrev pub Enough : Walk → Type 0
  Enough w = w.source_err ≡ false → (reorder_window ≤ length w.pending) ⊎ (w.items ≡ [])

  -- An end without a break: nothing was damaged, and nothing is held.
  finish_clean :
      (w : Walk) (res : Result)
      → (finish w res).problem ≡ none
      → (w.source_err ≡ false) × (w.pending ≡ [])
  unfolding finish
  finish_clean w res h = ground arith

  finish-Continues :
      (w : Walk) (res : Result) (p : Record)
      → Enough w
      → res.last_seq ≡ p.seq
      → (finish w res).problem ≡ none
      → Continues w.install p.seq p.hash w res (finish w res)
  unfolding finish
  finish-Continues w res p enough l h =
      let (c, e) = finish_clean w res h in
      record {
        rest = [];
        links = tt;
        clean = c;
        kept =
            (rw e tt, elim (enough c) [ inl many ↦ absurd (ground arith) | inr done ↦ rw done tt ]);
        taken = λ a b. tt;
        records = ground arith;
        last_seq = ground arith;
        first_seq = ground arith;
        fragment = ground arith;
      }

  All-later :
      (r : Record) (cs rs : List Record)
      → All (Covers compute cs) rs
      → All (Covers compute (r ∷ cs)) rs
  All-later r cs [] a = tt
  All-later r cs (x ∷ rs) a = (inr a.0, All-later r cs rs a.1)

  AllRead-later :
      (r : Record) (cs : List Record) (items : List Item)
      → AllRead (Covers compute cs) items
      → AllRead (Covers compute (r ∷ cs)) items
  AllRead-later r cs [] a = tt
  AllRead-later r cs (readable x ∷ items) a = (inr a.0, AllRead-later r cs items a.1)
  AllRead-later r cs (damaged ∷ items) a = a

  Kept-later :
      (r : Record) (cs : List Record) (w : Walk)
      → Kept compute (Covers compute cs) w
      → Kept compute (Covers compute (r ∷ cs)) w
  Kept-later r cs w k = (All-later r cs w.pending k.0, AllRead-later r cs w.items k.1)

  -- What an accepted record and the rest of the chain cover, before the record was accepted.
  pub Kept-back :
      (w w' : Walk) (r : Record) (rest : List Record)
      → held w.next w.pending ≡ some r
      → fill compute reorder_window (settle w r) w.items ≡ filled w'
      → w'.source_err ≡ false
      → Kept compute (Covers compute rest) w'
      → Kept compute (Covers compute (r ∷ rest)) w
  unfolding settle
  Kept-back w w' r rest e f clean k =
      let Q : Record → Type 0 = Covers compute (r ∷ rest) in
      let (held_rest, read) =
        fill-reads_all compute Q (λ a b. Covers-Delivers compute (r ∷ rest) a b) reorder_window
          (settle w r) w.items w' (λ p q. inl (inl (cc))) f clean (Kept-later r rest w' k) in
      (All-undelete compute Q w.next w.pending r e (inl (inl refl)) held_rest, read)

  -- What holds of all that is held and to be read holds after a round.
  pub taken_round :
      (w w' : Walk) (r : Record)
      → held w.next w.pending ≡ some r
      → fill compute reorder_window (settle w r) w.items ≡ filled w'
      → All T w.pending
      → EachRead T w.items
      → All T w'.pending × EachRead T w'.items
  unfolding settle
  taken_round w w' r e f a b =
      fill-taken compute T reorder_window (settle w r) w.items w' f
        (All-delete compute T w.next w.pending a) b

  -- One accepted record in front of a walk that continues.
  Continues-cons :
      (w w' : Walk) (r : Record) (i h : String) (n : ℕ) (res out : Result)
      → held w.next w.pending ≡ some r
      → fill compute reorder_window (settle w r) w.items ≡ filled w'
      → (r.install ≡ i) × (r.seq ≡ suc n) × (r.prev_hash ≡ h) × (compute r ≡ some r.hash)
      → w'.install ≡ i
      → Continues w'.install r.seq r.hash w' (count w r res) out
      → Continues i n h w res out
  unfolding settle count
  Continues-cons w w' r i h n res out e f link same c =
      let reads = fill-Reads compute reorder_window (settle w r) w.items w' f in
      record {
        rest = r ∷ c.rest;
        links = (
          link.0,
          link.1,
          link.2,
          link.3,
          subst (λ j. Links compute j r.seq r.hash c.rest) same c.links,
        );
        clean = reads.clean c.clean;
        kept = Kept-back w w' r c.rest e f c.clean c.kept;
        taken = λ a b.
            let (p, q) = taken_round w w' r e f a b in
            (held-All compute T w.next w.pending r e a, c.taken p q);
        records = omega (arith, c.records);
        last_seq = omega (arith, c.last_seq, link.1);
        first_seq = c.first_seq;
        fragment = c.fragment;
      }

  link_of :
      (w : Walk) (r p : Record)
      → w.prev ≡ some p
      → w.next ≡ suc p.seq
      → held w.next w.pending ≡ some r
      → inspect compute w r ≡ none
      → (r.install ≡ w.install)
        × (r.seq ≡ suc p.seq)
        × (r.prev_hash ≡ p.hash)
        × (compute r ≡ some r.hash)
  link_of w r p e n h i =
      let (a, b) = inspect-prev w r p e i in
      (a, held-seq compute w.next w.pending r h ∙ n, b, inspect_self w r i)

  module _ (w w' : Walk) (r : Record) (reads : Reads compute reorder_window (settle w r) w') where
    pub settled_prev : w'.prev ≡ some r
    unfolding settle
    settled_prev = reads.prev

    settled_install : (p : Record) → w.prev ≡ some p → w'.install ≡ w.install
    unfolding settle
    settled_install p e = ground (arith, reads.install)

    pub settled_next : held w.next w.pending ≡ some r → w'.next ≡ suc r.seq
    unfolding settle
    settled_next h = omega (arith, reads.next, held-seq compute w.next w.pending r h)

  pub count_last : (w : Walk) (r : Record) (res : Result) → (count w r res).last_seq ≡ r.seq
  unfolding count
  count_last w r res = refl

  -- The loop, from a state whose last record is `p`.
  pub walk_from-Continues :
      (fuel : ℕ) (w : Walk) (res out : Result) (p : Record)
      → w.prev ≡ some p
      → w.next ≡ suc p.seq
      → Enough w
      → res.last_seq ≡ p.seq
      → walk_from compute fuel w res ≡ some out
      → out.problem ≡ none
      → Continues w.install p.seq p.hash w res out
  walk_from-Continues zero w res out p e n enough l run good =
      absurd (no_fuel compute w res out run)
  walk_from-Continues (suc fuel) w res out p e n enough l run good =
      elim (Option-cases (held w.next w.pending)) [
        | inl h ↦
            let same : finish w res ≡ out = cc (round_end compute fuel w res h) in
            subst (λ (o : Result). Continues w.install p.seq p.hash w res o) same
              (finish-Continues w res p enough l (rw same good))
        | inr (r, h) ↦ elim (Option-cases (inspect compute w r)) [
          | inr (k, i) ↦ absurd (cc (round_stop compute fuel w res r h k i))
          | inl i ↦ elim (Fill-cases (fill compute reorder_window (settle w r) w.items)) [
            | inl (q, f) ↦ absurd (cc (round_broke compute fuel w res r h q i f))
            | inr (w', f) ↦
                let reads = fill-Reads compute reorder_window (settle w r) w.items w' f in
                Continues-cons w w' r w.install p.hash p.seq res out h f (link_of w r p e n h i)
                  (settled_install w w' r reads p e)
                  (walk_from-Continues fuel w' (count w r res) out r (settled_prev w w' r reads)
                    (settled_next w w' r reads h) reads.enough (count_last w r res)
                    (sym (round_next compute fuel w res r h w' i f) ∙ run) good)
          ]
        ]
      ]
