-- ===== src/Audit/Verify/Reading.antt =====
-- `fill` of internal/audit/verify.go: what it reads is held, or delivers again a record that is held
-- or was the last to be accepted.
use nodary.Prelude.{
  ℕ, ◌≤◌, String, ◌≡◌, ◌⊎◌, inl, inr, refl, sym, ◌∙◌, true, false, Option, some, List, [], ◌∷◌,
  ◌++◌, arith, length, All, leb, Bool-cases, subst, Option-cases, eq_iff, ◌==◌,
}
use nodary.Audit.Record.{Record}
use nodary.Audit.Verify.{
  Problem, Item, readable, damaged, Walk, same, held, delete, filled, Offer, repeat, hold, breaks,
  same_record, offer, fill,
}
use nodary.Audit.Verify.Spec.{AllRead, EachRead, Delivers, Covers}

module _ (compute : Record → Option String) where
  Delivers-same :
      (a b : Record) → a.seq ≡ b.seq → same_record compute a b ≡ same → Delivers compute a b
  unfolding same_record
  Delivers-same a b e h = elim (Option-cases (compute b)) [
    | inl n ↦ ground (arith, n)
    | inr (c, s) ↦ inr (
      sym e,
      ground (arith, eq_iff c b.hash, eq_iff a.hash b.hash),
      ground (arith, eq_iff c b.hash, eq_iff a.hash b.hash),
    )
  ]

  pub held-seq : (n : ℕ) (rs : List Record) (r : Record) → held n rs ≡ some r → r.seq ≡ n
  unfolding held
  held-seq n [] r h = cc
  held-seq n (x ∷ rs) r h = ground (arith, held-seq n rs r)

  pub held-All :
      (Q : Record → Type 0) (n : ℕ) (rs : List Record) (r : Record)
      → held n rs ≡ some r
      → All Q rs
      → Q r
  unfolding held
  held-All Q n [] r h a = cc
  held-All Q n (x ∷ rs) r h a = elim (Bool-cases (x.seq == n)) [
    | inl e ↦ subst Q (ground arith) a.0
    | inr e ↦ held-All Q n rs r (ground arith) a.1
  ]

  Delivers-trans :
      (x c r : Record) → Delivers compute x c → Delivers compute c r → Delivers compute x r
  Delivers-trans x c r (inl e) (inl d) = inl (d ∙ e)
  Delivers-trans x c r (inl e) (inr d) = inr (cc, cc, d.2)
  Delivers-trans x c r (inr e) (inl d) = inr (cc, cc, cc)
  Delivers-trans x c r (inr e) (inr d) = inr (cc, cc, d.2)

  pub Covers-Delivers :
      (cs : List Record) (c r : Record)
      → Covers compute cs c
      → Delivers compute c r
      → Covers compute cs r
  Covers-Delivers [] c r h d = h
  Covers-Delivers (x ∷ cs) c r (inr h) d = inr (Covers-Delivers cs c r h d)
  Covers-Delivers (x ∷ cs) c r (inl h) d = inl (Delivers-trans x c r h d)

  -- A line that is dropped delivers a record that is held, or the last one accepted.
  offer-repeat :
      (w : Walk) (r : Record)
      → offer compute w r ≡ repeat
      → ((c : Record) × (held r.seq w.pending ≡ some c) × Delivers compute c r)
        ⊎ ((p : Record) × (w.prev ≡ some p) × Delivers compute p r)
  unfolding offer
  offer-repeat w r h = elim (Option-cases (held r.seq w.pending)) [
    | inr (c, e) ↦ inl (c, e, Delivers-same c r (held-seq r.seq w.pending c e) (ground arith))
    | inl e ↦ elim (Option-cases w.prev) [
      | inr (p, e') ↦ inr (p, e', Delivers-same p r (ground arith) (ground arith))
      | inl e' ↦ ground arith
    ]
  ]

  All-snoc :
      (Q : Record → Type 0) (rs : List Record) (r : Record) → All Q (rs ++ r ∷ []) → All Q rs × Q r
  All-snoc Q [] r a = (tt, a.0)
  All-snoc Q (x ∷ xs) r a = let (b, q) = All-snoc Q xs r a.1 in ((a.0, b), q)

  pub All-undelete :
      (Q : Record → Type 0) (n : ℕ) (rs : List Record) (r : Record)
      → held n rs ≡ some r
      → Q r
      → All Q (delete n rs)
      → All Q rs
  unfolding held delete
  All-undelete Q n [] r h q a = tt
  All-undelete Q n (x ∷ rs) r h q a = elim (Bool-cases (x.seq == n)) [
    | inl e ↦ (subst Q (ground arith) q, rw e at a)
    | inr e ↦ let b = rw e at a in (b.0, All-undelete Q n rs r (ground arith) q b.1)
  ]

  -- What reading leaves alone, and what it sees to.
  pub record Reads (n : ℕ) (w w' : Walk) : Type 0 where
    pub prev : w'.prev ≡ w.prev
    pub install : w'.install ≡ w.install
    pub next : w'.next ≡ w.next
    pub clean : w'.source_err ≡ false → w.source_err ≡ false
    pub enough : w'.source_err ≡ false → (n ≤ length w'.pending) ⊎ (w'.items ≡ [])

  pub fill-Reads :
      (n : ℕ) (w : Walk) (items : List Item) (w' : Walk)
      → fill compute n w items ≡ filled w'
      → Reads n w w'
  unfolding fill
  fill-Reads n w [] w' h = ground arith
  fill-Reads n w (damaged ∷ rest) w' h = ground arith
  fill-Reads n w (readable r ∷ rest) w' h = ground (
    arith,
    fill-Reads n w rest w',
    fill-Reads n (record w { pending = w.pending ++ r ∷ [] }) rest w',
  )

  abbrev pub Kept : (Record → Type 0) → Walk → Type 0
  Kept Q w = All Q w.pending × AllRead Q w.items

  Offer-cases : (o : Offer) → (o ≡ repeat) ⊎ ((o ≡ hold) ⊎ ((p : Problem) × (o ≡ breaks p)))
  Offer-cases repeat = inl refl
  Offer-cases hold = inr (inl refl)
  Offer-cases (breaks p) = inr (inr (p, refl))

  -- `Q` passes to whatever delivers a record that has it.
  module _ (Q : Record → Type 0) (step : (c r : Record) → Q c → Delivers compute c r → Q r) where
    repeat_all :
        (w : Walk) (r : Record)
        → ((p : Record) → w.prev ≡ some p → Q p)
        → offer compute w r ≡ repeat
        → All Q w.pending
        → Q r
    repeat_all w r last o a = elim (offer-repeat w r o) [
      | inl (c, e, d) ↦ step c r (held-All Q r.seq w.pending c e a) d
      | inr (p, e, d) ↦ step p r (last p e) d
    ]

    -- What holds of all that is left after reading, held of all that was there before.
    pub fill-reads_all :
        (n : ℕ) (w : Walk) (items : List Item) (w' : Walk)
        → ((p : Record) → w.prev ≡ some p → Q p)
        → fill compute n w items ≡ filled w'
        → w'.source_err ≡ false
        → Kept Q w'
        → All Q w.pending × AllRead Q items
    unfolding fill
    fill-reads_all n w [] w' last h clean k =
        subst (λ (u : Walk). Kept Q u) {x = w'} {y = record w { items = [] }} (ground arith) k
    fill-reads_all n w (damaged ∷ rest) w' last h clean k =
        elim (Bool-cases (leb n (length w.pending))) [
          | inl e ↦
              subst (λ (u : Walk). Kept Q u) {x = w'} {y = record w { items = damaged ∷ rest }}
                (ground arith) k
          | inr e ↦ absurd (ground arith)
        ]
    fill-reads_all n w (readable r ∷ rest) w' last h clean k =
        elim (Bool-cases (leb n (length w.pending))) [
          | inl e ↦
              subst (λ (u : Walk). Kept Q u) {x = w'} {y = record w { items = readable r ∷ rest }}
                (ground arith) k
          | inr e ↦ elim (Offer-cases (offer compute w r)) [
            | inl o ↦
                let (a, b) = fill-reads_all n w rest w' last (ground arith) clean k in
                (a, (repeat_all w r last o a, b))
            | inr (inl o) ↦
                let (a, b) =
                  fill-reads_all n (record w { pending = w.pending ++ r ∷ [] }) rest w' last
                    (ground arith) clean k in
                let (c, q) = All-snoc Q w.pending r a in (c, (q, b))
            | inr (inr (p, o)) ↦ absurd (ground arith)
          ]
        ]

  All-append :
      (Q : Record → Type 0) (rs : List Record) (r : Record) → All Q rs → Q r → All Q (rs ++ r ∷ [])
  All-append Q [] r a q = (q, tt)
  All-append Q (x ∷ xs) r a q = (a.0, All-append Q xs r a.1 q)

  pub All-delete : (Q : Record → Type 0) (n : ℕ) (rs : List Record) → All Q rs → All Q (delete n rs)
  unfolding delete
  All-delete Q n [] a = tt
  All-delete Q n (x ∷ rs) a = elim (Bool-cases (x.seq == n)) [
    | inl e ↦ rw e a.1
    | inr e ↦ rw e (a.0, All-delete Q n rs a.1)
  ]

  abbrev Source : (Record → Type 0) → Walk → Type 0
  Source Q w = All Q w.pending × EachRead Q w.items

  -- Reading holds nothing but what the source holds.
  pub fill-taken :
      (Q : Record → Type 0) (n : ℕ) (w : Walk) (items : List Item) (w' : Walk)
      → fill compute n w items ≡ filled w'
      → All Q w.pending
      → EachRead Q items
      → All Q w'.pending × EachRead Q w'.items
  unfolding fill
  fill-taken Q n w [] w' h a b =
      subst (λ (u : Walk). Source Q u) {x = record w { items = [] }} {y = w'} (ground arith) (a, b)
  fill-taken Q n w (damaged ∷ rest) w' h a b = elim (Bool-cases (leb n (length w.pending))) [
    | inl e ↦
        subst (λ (u : Walk). Source Q u) {x = record w { items = damaged ∷ rest }} {y = w'}
          (ground arith) (a, b)
    | inr e ↦
        subst (λ (u : Walk). Source Q u) {x = record w { source_err = true; items = rest }} {y = w'}
          (ground arith) (a, b)
  ]
  fill-taken Q n w (readable r ∷ rest) w' h a b = elim (Bool-cases (leb n (length w.pending))) [
    | inl e ↦
        subst (λ (u : Walk). Source Q u) {x = record w { items = readable r ∷ rest }} {y = w'}
          (ground arith) (a, b)
    | inr e ↦ elim (Offer-cases (offer compute w r)) [
      | inl o ↦ fill-taken Q n w rest w' (ground arith) a b.1
      | inr (inl o) ↦
          fill-taken Q n (record w { pending = w.pending ++ r ∷ [] }) rest w' (ground arith)
            (All-append Q w.pending r a b.0) b.1
      | inr (inr (p, o)) ↦ absurd (ground arith)
    ]
  ]
