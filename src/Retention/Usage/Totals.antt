-- ===== src/Retention/Usage/Totals.antt =====
-- What internal/retention/retention.go's roll-up of usage leaves of the totals.
use nodary.Prelude.{
  ℕ, ◌+◌, ◌≡◌, ◌≤◌, refl, ap, true, List, [], ◌∷◌, ltb, eq_iff, if◌then◌else◌, inl, inr, Bool-cases,
  arith, All,
}
use nodary.Retention.Usage.{
  Group, Usage, Daily, group_of, same_group, group_into, groups, upsert_group, start_group, merge,
  roll, usage_before, usage_from, prune_usage,
}

-- What is counted of a request.
pub data Measure : Type 0 where
  requests : Measure
  prompt : Measure
  completion : Measure

abbrev pub weight : Measure → Usage → ℕ
weight Measure.requests u = 1
weight Measure.prompt u = u.prompt_tokens
weight Measure.completion u = u.completion_tokens

abbrev pub amount : Measure → Daily → ℕ
amount Measure.requests d = d.requests
amount Measure.prompt d = d.prompt_tokens
amount Measure.completion d = d.completion_tokens

-- The totals of one day, user and model, in the raw rows and in the aggregate.
abbrev pub raw_total : Measure → Group → List Usage → ℕ
raw_total m g [] = 0
raw_total m g (u ∷ us) = (if same_group (group_of u) g then weight m u else 0) + raw_total m g us

abbrev pub daily_total : Measure → Group → List Daily → ℕ
daily_total m g [] = 0
daily_total m g (d ∷ ds) = (if same_group d.group g then amount m d else 0) + daily_total m g ds

pub same_group_sound : (g h : Group) → same_group g h ≡ true → g ≡ h
unfolding same_group
same_group_sound g h e =
    let day : g.day ≡ h.day = ground (arith, e) in
    let user : g.user ≡ h.user = ground (arith, e, eq_iff g.user h.user) in
    let model : g.model ≡ h.model = ground (arith, e, eq_iff g.model h.model) in
    cc (day, user, model)

amount-merge : (m : Measure) (d e : Daily) → amount m (merge d e) ≡ amount m d + amount m e
amount-merge Measure.requests d e = refl
amount-merge Measure.prompt d e = refl
amount-merge Measure.completion d e = refl

amount-start_group : (m : Measure) (u : Usage) → amount m (start_group u) ≡ weight m u
amount-start_group Measure.requests u = refl
amount-start_group Measure.prompt u = refl
amount-start_group Measure.completion u = refl

-- What one row adds to the total of a group.
abbrev adds : Measure → Group → Daily → ℕ
adds m g d = if same_group d.group g then amount m d else 0

adds-merge :
    (m : Measure) (g : Group) (d e : Daily)
    → same_group d.group e.group ≡ true
    → adds m g (merge d e) ≡ adds m g e + adds m g d
adds-merge m g d e s =
    let h : same_group d.group g ≡ same_group e.group g =
      ap (λ (z : Group). same_group z g) (same_group_sound d.group e.group s) in
    elim (Bool-cases (same_group e.group g)) [
      | inl t ↦ rw (h, t) (omega (arith, amount-merge m d e))
      | inr f ↦ rw (h, f) refl
    ]

daily_total-upsert_group :
    (m : Measure) (g : Group) (e : Daily) (ds : List Daily)
    → daily_total m g (upsert_group e ds) ≡ adds m g e + daily_total m g ds
unfolding upsert_group
daily_total-upsert_group m g e [] = refl
daily_total-upsert_group m g e (d ∷ ds) = elim (Bool-cases (same_group d.group e.group)) [
  | inr f ↦ rw f (omega (arith, daily_total-upsert_group m g e ds))
  | inl t ↦ rw t (omega (arith, adds-merge m g d e t))
]

-- A row joins its group as an upsert of a group of its own.
group_into-upsert_group :
    (u : Usage) (ds : List Daily) → group_into u ds ≡ upsert_group (start_group u) ds
unfolding group_into upsert_group
group_into-upsert_group u [] = refl
group_into-upsert_group u (d ∷ ds) = elim (Bool-cases (same_group d.group (group_of u))) [
  | inr f ↦ rw f (ap (λ (z : List Daily). d ∷ z) (group_into-upsert_group u ds))
  | inl t ↦ rw t refl
]

daily_total-groups :
    (m : Measure) (g : Group) (us : List Usage) → daily_total m g (groups us) ≡ raw_total m g us
unfolding groups
daily_total-groups m g [] = refl
daily_total-groups m g (u ∷ us) =
    rw
      (
        group_into-upsert_group u (groups us),
        daily_total-upsert_group m g (start_group u) (groups us),
        amount-start_group m u,
      )
      (omega (arith, daily_total-groups m g us))

daily_total-roll :
    (m : Measure) (g : Group) (gs ds : List Daily)
    → daily_total m g (roll gs ds) ≡ daily_total m g gs + daily_total m g ds
unfolding roll
daily_total-roll m g [] ds = omega arith
daily_total-roll m g (e ∷ gs) ds =
    omega (arith, daily_total-roll m g gs (upsert_group e ds), daily_total-upsert_group m g e ds)

raw_total-split :
    (m : Measure) (g : Group) (cutoff : ℕ) (us : List Usage)
    → raw_total m g (usage_before cutoff us) + raw_total m g (usage_from cutoff us)
      ≡ raw_total m g us
unfolding usage_before usage_from
raw_total-split m g cutoff [] = refl
raw_total-split m g cutoff (u ∷ us) = elim (Bool-cases (ltb u.ts cutoff)) [
  | inl t ↦ rw t (omega (arith, raw_total-split m g cutoff us))
  | inr f ↦ rw f (omega (arith, raw_total-split m g cutoff us))
]

usage_from-young : (cutoff : ℕ) (us : List Usage) → All (λ u. cutoff ≤ u.ts) (usage_from cutoff us)
unfolding usage_from
usage_from-young cutoff [] = tt
usage_from-young cutoff (u ∷ us) = elim (Bool-cases (ltb u.ts cutoff)) [
  | inl t ↦ rw t (usage_from-young cutoff us)
  | inr f ↦ rw f (ground (arith, f), usage_from-young cutoff us)
]

-- The roll-up leaves the requests and the tokens of each day, user and model as they were, in the raw
-- rows and the aggregate together, and no raw row older than the cutoff.
pub prune_usage-totals :
    (cutoff : ℕ) (us : List Usage) (ds : List Daily) (m : Measure) (g : Group)
    → (raw_total m g (prune_usage cutoff us ds).usage
          + daily_total m g (prune_usage cutoff us ds).daily
        ≡ raw_total m g us + daily_total m g ds)
      × All (λ u. cutoff ≤ u.ts) (prune_usage cutoff us ds).usage
unfolding prune_usage
prune_usage-totals cutoff us ds m g = (
  omega (
    arith,
    daily_total-roll m g (groups (usage_before cutoff us)) ds,
    daily_total-groups m g (usage_before cutoff us),
    raw_total-split m g cutoff us,
  ),
  usage_from-young cutoff us,
)
