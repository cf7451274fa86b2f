-- ===== src/Retention/Pass/Agree.antt =====
-- The plan of internal/retention/retention.go against the pass that it announces.
use nodary.Prelude.{
  ◌>>=◌, ℕ, ◌+◌, ◌≡◌, refl, sym, ap, ◌∙◌, String, Bool, true, false, ◌&&◌, ◌||◌, Option, none, some,
  List, [], ◌∷◌, ◌++◌, ltb, ◌==◌, eq_iff, if◌then◌else◌, ◌⊎◌, inl, inr, Bool-cases, arith, length,
  All,
}
use nodary.Audit.Record.{codes}
use nodary.Audit.Digest.Binding.{codes-injective}
use nodary.Canonical.Number.{text_eq}
use nodary.Canonical.Number.Spelled.{text_eq_sound, text_eq_refl}
use nodary.Retention.{Prefix, audit_prefix, prune_audit}
use nodary.Retention.Usage.{
  Group, Usage, Daily, coalesce, group_of, same_group, group_into, groups, usage_before,
  prune_usage,
}
use nodary.Retention.Usage.Totals.{same_group_sound}
use nodary.Retention.Pass.{
  Window, Store, Removed, Label, label, has_label, count_distinct, start, plan, prune,
}

-- A text without the bar that joins the parts of a label.
abbrev HasNoBar : List ℕ → Type 0
HasNoBar s = All (λ c. (c == b'|') ≡ false) s

abbrev pub HaveNoBar : List Usage → Type 0
HaveNoBar us = All (λ u. HasNoBar (codes (coalesce u.user_id))) us

append-injective :
    (s t a b : List ℕ)
    → HasNoBar s
    → HasNoBar t
    → s ++ (b'|' ∷ a) ≡ t ++ (b'|' ∷ b)
    → (s ≡ t) × (a ≡ b)
append-injective [] [] a b h k e = (refl, cc e)
append-injective [] (d ∷ t) a b h (x, k) e = absurd (ground (arith, x, e))
append-injective (c ∷ s) [] a b (x, h) k e = absurd (ground (arith, x, e))
append-injective (c ∷ s) (d ∷ t) a b (x, h) (y, k) e =
    let same : c ≡ d = cc e in
    let rest : s ++ (b'|' ∷ a) ≡ t ++ (b'|' ∷ b) = cc e in
    let (p, q) = append-injective s t a b h k rest in (cc (same, p), q)

abbrev same_label : Label → Label → Bool
same_label l k = l.day == k.day && text_eq l.rest k.rest

same_group_refl : (g : Group) → same_group g g ≡ true
unfolding same_group
same_group_refl g = ground (arith, (eq_iff g.user g.user).1 refl, (eq_iff g.model g.model).1 refl)

label-same_group :
    (u v : Usage)
    → HasNoBar (codes (coalesce u.user_id))
    → HasNoBar (codes (coalesce v.user_id))
    → same_label (label u) (label v) ≡ same_group (group_of u) (group_of v)
label-same_group u v h k = elim (Bool-cases (same_label (label u) (label v))) [
  | inl e ↦
      let day : (group_of u).day ≡ (group_of v).day = ground (arith, e) in
      let t : text_eq (label u).rest (label v).rest ≡ true = ground (arith, e) in
      let (p, q) =
        append-injective (codes (group_of u).user) (codes (group_of v).user)
          (codes (group_of u).model) (codes (group_of v).model) h k
          (text_eq_sound (label u).rest (label v).rest t) in
      let user = codes-injective (group_of u).user (group_of v).user p in
      let model = codes-injective (group_of u).model (group_of v).model q in
      let same : group_of u ≡ group_of v = cc (day, user, model) in
      e ∙ sym (ap (λ (g : Group). same_group g (group_of v)) same ∙ same_group_refl (group_of v))
  | inr e ↦ elim (Bool-cases (same_group (group_of u) (group_of v))) [
    | inr f ↦ e ∙ sym f
    | inl f ↦ absurd (apart f e)
  ]
]
  where
    apart : same_group (group_of u) (group_of v) ≡ true → same_label (label u) (label v) ≡ false → ⊥
    apart f e =
        let same = same_group_sound (group_of u) (group_of v) f in
        let l : label u ≡ label v =
          ap (λ (g : Group). record { day = g.day; rest = codes g.user ++ (b'|' ∷ codes g.model) })
            same in
        let r : same_label (label v) (label v) ≡ true =
          ground (arith, text_eq_refl (label v).rest) in
        cc (ap (λ (k : Label). same_label k (label v)) l, r, e)

-- Whether a group is among those written.
has_group : Group → List Daily → Bool
has_group g [] = false
has_group g (d ∷ ds) = same_group d.group g || has_group g ds

has_group-group_into :
    (g : Group) (u : Usage) (ds : List Daily)
    → has_group g (group_into u ds) ≡ (same_group (group_of u) g || has_group g ds)
unfolding has_group group_into
has_group-group_into g u [] = refl
has_group-group_into g u (d ∷ ds) = elim (Bool-cases (same_group d.group (group_of u))) [
  | inl e ↦
      let h : same_group d.group g ≡ same_group (group_of u) g =
        ap (λ (x : Group). same_group x g) (same_group_sound d.group (group_of u) e) in
      rw e (ground (arith, h))
  | inr e ↦ rw e (ground (arith, has_group-group_into g u ds))
]

length-group_into :
    (u : Usage) (ds : List Daily)
    → length (group_into u ds) ≡ (if has_group (group_of u) ds then length ds else length ds + 1)
unfolding has_group group_into
length-group_into u [] = refl
length-group_into u (d ∷ ds) = elim (Bool-cases (same_group d.group (group_of u))) [
  | inl e ↦ rw e refl
  | inr e ↦ rw e (ground (arith, length-group_into u ds))
]

has_label-groups :
    (u : Usage) (us : List Usage)
    → HasNoBar (codes (coalesce u.user_id))
    → HaveNoBar us
    → has_label (label u) us ≡ has_group (group_of u) (groups us)
unfolding has_label has_group groups
has_label-groups u [] h k = refl
has_label-groups u (v ∷ us) h (x, k) =
    rw
      (
        has_group-group_into (group_of u) v (groups us),
        label-same_group v u x h,
        has_label-groups u us h k,
      )
      refl

count_distinct-groups : (us : List Usage) → HaveNoBar us → count_distinct us ≡ length (groups us)
unfolding count_distinct groups
count_distinct-groups [] h = refl
count_distinct-groups (u ∷ us) (x, h) =
    rw (length-group_into u (groups us), has_label-groups u us x h, count_distinct-groups us h) refl

usage_before-HaveNoBar :
    (cutoff : ℕ) (us : List Usage) → HaveNoBar us → HaveNoBar (usage_before cutoff us)
unfolding usage_before
usage_before-HaveNoBar cutoff [] h = tt
usage_before-HaveNoBar cutoff (u ∷ us) (x, h) = elim (Bool-cases (ltb u.ts cutoff)) [
  | inl e ↦ rw e (x, usage_before-HaveNoBar cutoff us h)
  | inr e ↦ rw e (usage_before-HaveNoBar cutoff us h)
]

Prefix-cases :
    (p : Prefix)
    → (p ≡ Prefix.nothing)
      ⊎ ((a : ℕ) × (b : ℕ) × (c : String) × (p ≡ Prefix.range a b c))
      ⊎ (p ≡ Prefix.unreadable_range)
      ⊎ (p ≡ Prefix.no_anchor_hash)
Prefix-cases Prefix.nothing = inl refl
Prefix-cases (Prefix.range a b c) = inr (inl (a, b, c, refl))
Prefix-cases Prefix.unreadable_range = inr (inr (inl refl))
Prefix-cases Prefix.no_anchor_hash = inr (inr (inr refl))

Removed-cases : (o : Option Removed) → (o ≡ none) ⊎ ((r : Removed) × (o ≡ some r))
Removed-cases none = inl refl
Removed-cases (some r) = inr (r, refl)

-- If no user's id has a bar in it, the plan is what the pass removes, and the plan fails exactly where
-- the pass does.
pub plan-prune :
    (w : Window) (now : ℕ) (s : Store)
    → HaveNoBar s.usage
    → plan w now s ≡ (prune w now s >>= (λ p. some p.1))
unfolding plan prune prune_usage prune_audit
plan-prune w now s h = elim (Removed-cases (start w now)) [
  | inl e ↦ rw e refl
  | inr (r, e) ↦
      let c =
        count_distinct-groups (usage_before r.usage_before s.usage)
          (usage_before-HaveNoBar r.usage_before s.usage h) in
      elim (Prefix-cases (audit_prefix r.audit_before s.database.audit)) [
        | inl p ↦ rw (e, prune_audit, p, c) refl
        | inr (inl (a, b, x, p)) ↦ rw (e, prune_audit, p, c) refl
        | inr (inr (inl p)) ↦ rw (e, prune_audit, p) refl
        | inr (inr (inr p)) ↦ rw (e, prune_audit, p) refl
      ]
]
