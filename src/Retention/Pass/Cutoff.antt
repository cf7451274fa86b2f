-- ===== src/Retention/Pass/Cutoff.antt =====
-- The cutoff of a window of days, and what it keeps, `before` of internal/retention/retention.go.
use nodary.Prelude.{
  All, List, [], ◌∷◌, ◌++◌, none, some, Option, Option-cases, String, ap, ◌∙◌, subst, ℕ, ◌-◌, ◌*◌,
  ◌^◌, ◌%◌, ◌≤◌, ◌<◌, ◌≡◌, refl, true, false, ltb, ◌||◌, leb, arith, ◌⊎◌, inl, inr, Bool-cases,
}
use nodary.Audit.Record.{Record, truncate_ms}
use nodary.Audit.Record.{compute}
use nodary.Audit.Verify.Spec.{Links}
use nodary.Audit.Database.{Database}
use nodary.Audit.Database.Sound.{start, last_of, IsSound}
use nodary.Retention.{
  first_young, last_seq, keep_from, min_below, hash_at, Prefix, nothing, range, unreadable_range,
  no_anchor_hash, read_range, audit_prefix, after, cut_at, prune_audit,
}
use nodary.Retention.Pass
use nodary.Retention.Sound.{Links-suffix, last_of-lt, after-front, Ranged-range}
use nodary.Retention.Sound.Place.{Cut, Cut-keep_from}
use nodary.Retention.Usage.{day_length}
use nodary.Retention.Pass.{Window, Store, Removed, before, prune}

duration : (days : ℕ) → days ≤ 213503 → (days * day_length) % 2 ^ 64 ≡ days * day_length
duration days h = omega (arith, h)

-- The cutoff of a window that the duration holds, and of one that it does not.
pub before-cases :
    (now days : ℕ)
    → days ≤ 213503
    → ((days ≤ 106751) × (before now days ≡ truncate_ms (now - days * day_length)))
      ⊎ ((106752 ≤ days) × (now < before now days))
unfolding before
before-cases now days h = elim (Bool-cases (leb days 106751)) [
  | inl e ↦
      let small : ltb (days * day_length) (2 ^ 63) ≡ true = ground (arith, e) in
      inl (ground (arith, e), rw (duration days h, small) refl)
  | inr e ↦
      let large : ltb (days * day_length) (2 ^ 63) ≡ false = ground (arith, e) in
      inr (ground (arith, e), rw (duration days h, large) (omega (arith, h)))
]

-- The records are cut in one place: what is removed is older than the cutoff, something is kept, and
-- the first record kept is not older than the cutoff, or it is the last of all.
abbrev pub KeepsFrom : ℕ → List Record → List Record → Type 0
KeepsFrom cutoff rows kept =
    (removed : List Record) × (first : Record) × (rest : List Record) × (rows
      ≡ removed ++ first ∷ rest)
    × (kept ≡ first ∷ rest)
    × All (λ r. r.ts < cutoff) removed
    × ((cutoff ≤ first.ts) ⊎ (rest ≡ []))

All-middle :
    (now : ℕ) (removed : List Record) (first : Record) (rest : List Record)
    → All (λ r. r.ts ≤ now) (removed ++ first ∷ rest)
    → first.ts ≤ now
All-middle now [] first rest a = a.0
All-middle now (r ∷ removed) first rest a = All-middle now removed first rest a.1

module _ (digest : Record → Option String) where
  uncut :
      (cutoff k : ℕ) (i : String) (n : ℕ) (h : String) (rows : List Record)
      → k ≤ 1
      → Links (compute digest) i n h rows
      → Cut cutoff k rows
      → KeepsFrom cutoff rows rows
  uncut cutoff k i n h rows low l c = first_is c.removed c.split c.old
    where
      first_is :
          (removed : List Record)
          → rows ≡ removed ++ c.first ∷ c.kept
          → All (λ r. r.ts < cutoff) removed
          → KeepsFrom cutoff rows rows
      first_is [] e old = ([], c.first, c.kept, e, e, tt, c.needed)
      first_is (r ∷ front) e old =
          let l' : Links (compute digest) i n h (r ∷ front ++ c.first ∷ c.kept) = rw e at l in
          let next = (Links-suffix digest i n h (r ∷ front) (c.first ∷ c.kept) l').1 in
          let past = last_of-lt digest i r.seq r.hash front (c.first ∷ c.kept) l'.4 in
          absurd (omega (arith, next, past, l'.1, c.at_cut, low))

  left_there :
      (cutoff k through : ℕ) (i : String) (n : ℕ) (h : String) (rows : List Record)
      → through ≡ k - 1
      → Links (compute digest) i n h rows
      → Cut cutoff k rows
      → KeepsFrom cutoff rows (after through rows)
  left_there cutoff k through i n h rows t l c =
      let l' : Links (compute digest) i n h (c.removed ++ c.first ∷ c.kept) = rw (c.split) at l in
      let next = (Links-suffix digest i n h c.removed (c.first ∷ c.kept) l').1 in
      let at : through ≡ (last_of n h c.removed).0 = omega (arith, t, next, c.at_cut) in
      let left : after through rows ≡ c.first ∷ c.kept =
        ap (λ (x : List Record). after through x) c.split
        ∙ ap (λ (m : ℕ). after m (c.removed ++ c.first ∷ c.kept)) at
        ∙ after-front digest i n h c.removed (c.first ∷ c.kept) l' in
      (c.removed, c.first, c.kept, c.split, left, c.old, c.needed)

  last_seq-none : (rows : List Record) → last_seq rows ≡ none → rows ≡ []
  unfolding last_seq
  last_seq-none [] e = refl
  last_seq-none (r ∷ []) e = absurd (cc e)
  last_seq-none (r ∷ s ∷ rs) e = absurd (cc (last_seq-none (s ∷ rs) e))

  keep_from-none : (cutoff : ℕ) (rows : List Record) → keep_from cutoff rows ≡ none → rows ≡ []
  unfolding keep_from
  keep_from-none cutoff rows e = elim (Option-cases (first_young cutoff rows)) [
    | inl y ↦ last_seq-none rows (ground (arith, e, y))
    | inr (n, y) ↦ absurd (ground (arith, e, y))
  ]

  read_range_reads : (k : ℕ) (rows : List Record) → read_range k rows ≡ nothing → ⊥
  unfolding read_range
  read_range_reads k rows e = elim (Option-cases (min_below k rows)) [
    | inl m ↦ ground (arith, e, m)
    | inr (n, m) ↦ elim (Option-cases (hash_at (k - 1) rows)) [
      | inl q ↦ ground (arith, e, m, q)
      | inr (x, q) ↦ ground (arith, e, m, q)
    ]
  ]

  nothing_cut :
      (cutoff : ℕ) (db : Database)
      → IsSound digest db
      → audit_prefix cutoff db.audit ≡ nothing
      → KeepsFrom cutoff db.audit db.audit
  unfolding audit_prefix
  nothing_cut cutoff db s p = elim (Option-cases (keep_from cutoff db.audit)) [
    | inl e ↦ absurd (s.kept (keep_from-none cutoff db.audit e))
    | inr (k, e) ↦ elim (Bool-cases (leb k 1)) [
      | inl low ↦
          uncut cutoff k s.row.id (start s.anchor).0 (start s.anchor).1 db.audit
            (ground (arith, low)) s.links (Cut-keep_from cutoff k db.audit e)
      | inr high ↦ absurd (read_range_reads k db.audit (rw (audit_prefix, e, high) at p))
    ]
  ]

  prune_audit-KeepsFrom :
      (cutoff : ℕ) (db db' : Database)
      → IsSound digest db
      → prune_audit cutoff db ≡ some db'
      → KeepsFrom cutoff db.audit db'.audit
  unfolding prune_audit
  prune_audit-KeepsFrom cutoff db db' s h = go (audit_prefix cutoff db.audit) refl
    where
      go : (p : Prefix) → audit_prefix cutoff db.audit ≡ p → KeepsFrom cutoff db.audit db'.audit
      go nothing e =
          let same : db ≡ db' = ground (arith, e) in
          subst (λ (d : Database). KeepsFrom cutoff db.audit d.audit) same
            (nothing_cut cutoff db s e)
      go (range from through anchor) e =
          let g = Ranged-range digest cutoff db.audit from through anchor e in
          let same : record {
            audit = after through db.audit;
            installation = cut_at through anchor db.installation;
          }
              ≡ db' =
            ground (arith, e) in
          subst (λ (d : Database). KeepsFrom cutoff db.audit d.audit) same
            (left_there cutoff g.k through s.row.id (start s.anchor).0 (start s.anchor).1 db.audit
              g.through_at s.links (Cut-keep_from cutoff g.k db.audit g.kept_from))
      go unreadable_range e = absurd (ground (arith, e))
      go no_anchor_hash e = absurd (ground (arith, e))

  pass_database :
      (w : Window) (now : ℕ) (s s' : Store) (out : Removed)
      → prune w now s ≡ some (s', out)
      → prune_audit (before now w.audit_days) s.database ≡ some s'.database
  unfolding prune Pass.start
  pass_database w now s s' out p = elim (Bool-cases (ltb w.audit_days 1 || ltb w.usage_days 1)) [
    | inl e ↦ absurd (ground (arith, e, p))
    | inr e ↦ elim (Option-cases (prune_audit (before now w.audit_days) s.database)) [
      | inl q ↦ absurd (ground (arith, e, p, q))
      | inr (db, q) ↦ ground (arith, e, p, q)
    ]
  ]

  -- What is left of records that are all older than the cutoff.
  last_left :
      (now cutoff : ℕ) (rows kept : List Record)
      → now < cutoff
      → All (λ r. r.ts ≤ now) rows
      → KeepsFrom cutoff rows kept
      → (removed : List Record) × (last : Record) × (rows ≡ removed ++ last ∷ [])
        × (kept ≡ last ∷ [])
  last_left now cutoff rows kept late a (removed, first, rest, e, k, old, needed) = elim needed [
    | inl young ↦ absurd (omega (arith, late, young, All-middle now removed first rest (rw e at a)))
    | inr none_after ↦ (
      removed,
      first,
      e ∙ ap (λ (x : List Record). removed ++ first ∷ x) none_after,
      k ∙ ap (λ (x : List Record). first ∷ x) none_after,
    )
  ]

  -- A pass of `Prune` over a sound database whose records are not of the future. Under a window of at
  -- most 106,751 days it keeps the records from the first on that is at most that many days old, to the
  -- millisecond, or the last alone where none is; a window of 106,752 to 213,503 days overflows the
  -- duration, and the pass keeps the last record alone.
  pub prune-KeepsFrom :
      (w : Window) (now : ℕ) (s s' : Store) (out : Removed)
      → IsSound digest s.database
      → prune w now s ≡ some (s', out)
      → w.audit_days ≤ 213503
      → All (λ r. r.ts ≤ now) s.database.audit
      → ((w.audit_days ≤ 106751)
          × KeepsFrom
              (truncate_ms (now - w.audit_days * day_length))
              s.database.audit
              s'.database.audit)
        ⊎ ((106752 ≤ w.audit_days)
            × (removed : List Record) × (last : Record) × (s.database.audit ≡ removed ++ last ∷ [])
            × (s'.database.audit ≡ last ∷ []))
  prune-KeepsFrom w now s s' out sound p h a =
      let kept =
        prune_audit-KeepsFrom (before now w.audit_days) s.database s'.database sound
          (pass_database w now s s' out p) in
      elim (before-cases now w.audit_days h) [
        | inl (short, e) ↦
            inl (short, subst (λ (c : ℕ). KeepsFrom c s.database.audit s'.database.audit) e kept)
        | inr (long, late) ↦
            let (removed, last, e, k) =
              last_left now (before now w.audit_days) s.database.audit s'.database.audit late a
                kept in
            inr (long, removed, last, e, k)
      ]
