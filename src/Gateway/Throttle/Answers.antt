-- ===== src/Gateway/Throttle/Answers.antt =====
-- What `Server.admit` of internal/gateway/throttle.go answers, by the rows that apply to the caller.
use nodary.Prelude.{
  ℕ, suc, ◌≤◌, ◌<◌, ◌≡◌, refl, ap, subst, true, Option, none, some, ℤ, pos, List, All, ◌⊎◌, inl,
  inr, Bool-cases, Option-cases, arith, All-map,
}
use nodary.Gateway.Limits.{Limit, Limits, Row, Principal, matches, none_apply, limits_for}
use nodary.Gateway.Limits.Tightest.{Respects, SetBy}
use nodary.Gateway.Bucket.{Floats}
use nodary.Gateway.Throttle.{
  Ceiling, Refusal, Throttle, admit, Answer, daily_used, answer_of, server_admit,
}
use nodary.Gateway.Throttle.Fair.{
  column_of, limit_of, limit_of-IsTightest, TakesSlot, HasTokens, PaysRequest, IsFair, admit-IsFair,
}

-- The ceiling that a refusal states.
abbrev pub stated : Refusal → Limit
stated r = record { value = r.value; subject = r.subject }

-- No row that applies sets a ceiling in the column.
abbrev pub Unset : Principal → (Row → ℤ) → Row → Type 0
Unset p c r = (n : ℕ) → matches p r.subject ≡ true → c r ≡ pos (suc n) → ⊥

unset :
    (p : Principal) (rows : List Row) (c : Ceiling)
    → (limit_of c (limits_for p rows)).value ≡ 0
    → All (Unset p (column_of c)) rows
unset p rows c z =
    All-map rows (λ r f n m e. let k = f n m e in absurd (omega (arith, k.0, z)))
      (limit_of-IsTightest p rows c).0

none_apply-zero : (l : Limits) → none_apply l ≡ true → (c : Ceiling) → (limit_of c l).value ≡ 0
unfolding none_apply
none_apply-zero l e Ceiling.daily_tokens = ground (arith, e)
none_apply-zero l e Ceiling.max_concurrent = ground (arith, e)
none_apply-zero l e Ceiling.tokens_per_minute = ground (arith, e)
none_apply-zero l e Ceiling.requests_per_minute = ground (arith, e)

same_limit : (l m : Limit) → m.value ≡ l.value → m.subject ≡ l.subject → l ≡ m
same_limit l m v s = ground (arith, v, s)

-- Tokens are left today, by the sum that was read.
abbrev pub UnderBudget : Limits → Option ℕ → Type 0
UnderBudget l used = (l.daily.value ≡ 0) ⊎ ((n : ℕ) × (used ≡ some n) × (n < l.daily.value))

unread : (l : Limits) (used : Option ℕ) → daily_used l used ≡ none → used ≡ none
unfolding daily_used
unread l used q = ground (arith, q)

module _ (F : Floats) where
  -- What the answer says of the rows, and of the throttle before and after.
  abbrev pub Told :
      Principal → Option (List Row) → ℕ → Option ℕ → Throttle F → Throttle F × Answer → Type 0
  Told p table now used t (t', Answer.unlimited) =
      (t' ≡ t)
      × ((rows : List Row) × (table ≡ some rows)
          × ((c : Ceiling) → All (Unset p (column_of c)) rows))
  Told p table now used t (t', Answer.admitted l) =
      (rows : List Row) × (table ≡ some rows)
      × (l ≡ limits_for p rows)
      × UnderBudget l used
      × TakesSlot F l t t'
      × HasTokens F l now t
      × PaysRequest F l now t t'
  Told p table now used t (t', Answer.refused r) =
      (t'.inflight ≡ t.inflight)
      × (1 ≤ r.resets_in)
      × ((rows : List Row) × (table ≡ some rows)
          × SetBy p (column_of r.limit) (stated r) rows
          × All (Respects p (column_of r.limit) (stated r)) rows)
  Told p table now used t (t', Answer.failed) = (t' ≡ t) × ((table ≡ none) ⊎ (used ≡ none))

  answer_of-Told :
      (p : Principal) (rows : List Row) (now n : ℕ) (used : Option ℕ) (t : Throttle F)
      (x : Throttle F × Option Refusal)
      → daily_used (limits_for p rows) used ≡ some n
      → IsFair F (limits_for p rows) now n t x
      → Told p (some rows) now used t (answer_of F (limits_for p rows) x)
  unfolding answer_of daily_used
  answer_of-Told p rows now n used t (t', none) d f = (rows, refl, refl, budget, f.1, f.2, f.3)
    where
      budget : UnderBudget (limits_for p rows) used
      budget = elim f.0 [
        | inl z ↦ inl z
        | inr under ↦ let read : used ≡ some n = ground (arith, d, under) in inr (n, read, under)
      ]
  answer_of-Told p rows now n used t (t', some r) d f =
      let l = limit_of r.limit (limits_for p rows) in
      let same : l ≡ stated r = same_limit l (stated r) f.0 f.1 in
      let tight = limit_of-IsTightest p rows r.limit in
      let set_by : SetBy p (column_of r.limit) l rows = elim tight.1 [
        | inr q ↦ q
        | inl z ↦ absurd (omega (arith, f.2, f.0, ap (λ (x : Limit). x.value) z))
      ] in
      (
        f.4,
        f.3,
        (
          rows,
          refl,
          subst (λ (x : Limit). SetBy p (column_of r.limit) x rows) same set_by,
          subst (λ (x : Limit). All (Respects p (column_of r.limit) x) rows) same tight.0,
        ),
      )

  -- A refusal states the least positive value that a row that applies to the caller sets in its
  -- column, under that row's subject, asks to wait for at least a second and takes no slot; a caller
  -- is without limits only if no row that applies sets any; a failure changes nothing and means that the
  -- rows or the day's use could not be read. An admission is under the limits of the rows: of each
  -- ceiling that is set, the day's use that was read is below it, a slot was free and is held now,
  -- the refilled bucket of tokens holds one, and the refilled bucket of requests holds one and pays it.
  pub server_admit-Told :
      (p : Principal) (table : Option (List Row)) (now : ℕ) (used : Option ℕ) (t : Throttle F)
      → Told p table now used t (server_admit F p table now used t)
  unfolding server_admit
  server_admit-Told p none now used t = (refl, inl refl)
  server_admit-Told p (some rows) now used t = elim (Bool-cases (none_apply (limits_for p rows))) [
    | inl e ↦
        rw (server_admit, e)
          (refl, (rows, refl, λ c. unset p rows c (none_apply-zero (limits_for p rows) e c)))
    | inr e ↦ elim (Option-cases (daily_used (limits_for p rows) used)) [
      | inl q ↦ rw (server_admit, e, q) (refl, inr (unread (limits_for p rows) used q))
      | inr (n, q) ↦
          rw (server_admit, e, q)
            (answer_of-Told p rows now n used t (admit F (limits_for p rows) now n t) q
              (admit-IsFair F (limits_for p rows) now n t))
    ]
  ]
