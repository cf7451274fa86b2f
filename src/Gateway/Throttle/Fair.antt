-- ===== src/Gateway/Throttle/Fair.antt =====
-- `admit` of internal/gateway/throttle.go against the ceilings it is given.
use nodary.Prelude.{
  ℕ, ◌+◌, ◌-◌, ◌≤◌, ◌<◌, ◌≡◌, ◌∙◌, refl, ap, true, false, ◌&&◌, Option, none, some, ltb, leb, ℤ,
  pos, List, ◌⊎◌, inl, inr, Bool-cases, arith, eq_iff,
}
use nodary.Gateway.Limits.{Subject, Limit, Limits, Row, Principal, limits_for}
use nodary.Gateway.Limits.Tightest.{IsTightest, limits_for-IsTightest}
use nodary.Gateway.Bucket.{Floats, Bucket, per_minute, refill, take-cases, wait_for, ceil_seconds}
use nodary.Gateway.Throttle.{
  Ceiling, Refusal, Throttle, seconds_until_daily_reset, daily_refusal, slot_refusal,
  bucket_refusal, hold_slot, admit_request, admit_tokens, admit, set, subject_eq, last_daily_reset,
  day,
}

abbrev pub column_of : Ceiling → Row → ℤ
column_of Ceiling.daily_tokens r = r.daily_tokens
column_of Ceiling.max_concurrent r = r.max_concurrent
column_of Ceiling.tokens_per_minute r = r.tpm
column_of Ceiling.requests_per_minute r = r.rpm

abbrev pub limit_of : Ceiling → Limits → Limit
limit_of Ceiling.daily_tokens l = l.daily
limit_of Ceiling.max_concurrent l = l.concurrent
limit_of Ceiling.tokens_per_minute l = l.tpm
limit_of Ceiling.requests_per_minute l = l.rpm

pub limit_of-IsTightest :
    (p : Principal) (rows : List Row) (c : Ceiling)
    → IsTightest p (column_of c) rows (limit_of c (limits_for p rows))
limit_of-IsTightest p rows Ceiling.daily_tokens = (limits_for-IsTightest p rows).2
limit_of-IsTightest p rows Ceiling.max_concurrent = (limits_for-IsTightest p rows).3
limit_of-IsTightest p rows Ceiling.tokens_per_minute = (limits_for-IsTightest p rows).1
limit_of-IsTightest p rows Ceiling.requests_per_minute = (limits_for-IsTightest p rows).0

subject_eq_refl : (s : Subject) → subject_eq s s ≡ true
unfolding subject_eq
subject_eq_refl Subject.nobody = refl
subject_eq_refl (Subject.user a) = ground (arith, (eq_iff a a).1 refl)
subject_eq_refl (Subject.role a) = ground (arith, (eq_iff a a).1 refl)
subject_eq_refl Subject.global = refl

abbrev pub UnderDaily : Limits → ℕ → Type 0
UnderDaily l n = (l.daily.value ≡ 0) ⊎ (n < l.daily.value)

module _ (F : Floats) where
  -- A refusal states a ceiling that is set, and takes no slot.
  abbrev pub Refuses : Limits → Throttle F → Throttle F → Refusal → Type 0
  Refuses l t t' r =
      (r.value ≡ (limit_of r.limit l).value)
      × (r.subject ≡ (limit_of r.limit l).subject)
      × (0 < r.value)
      × (1 ≤ r.resets_in)
      × (t'.inflight ≡ t.inflight)

  abbrev pub HasSlot : Limits → Throttle F → Type 0
  HasSlot l t = (l.concurrent.value ≡ 0) ⊎ (t.inflight l.concurrent.subject < l.concurrent.value)

  -- No ceiling on concurrency is set, or a slot was free and is held now.
  abbrev pub TakesSlot : Limits → Throttle F → Throttle F → Type 0
  TakesSlot l t t' =
      ((l.concurrent.value ≡ 0) × (t'.inflight ≡ t.inflight))
      ⊎ ((t.inflight l.concurrent.subject < l.concurrent.value)
          × (t'.inflight l.concurrent.subject ≡ t.inflight l.concurrent.subject + 1))

  -- The refilled bucket of tokens holds one.
  abbrev pub HasTokens : Limits → ℕ → Throttle F → Type 0
  HasTokens l now t =
      (l.tpm.value ≡ 0)
      ⊎ (F.less (refill F (t.tpm l.tpm.subject) (F.of_nat l.tpm.value) per_minute now).tokens
            (F.of_nat 1)
          ≡ false)

  -- The refilled bucket of requests holds one, and pays it.
  abbrev pub PaysRequest : Limits → ℕ → Throttle F → Throttle F → Type 0
  PaysRequest l now t t' =
      (l.rpm.value ≡ 0)
      ⊎ (let b = refill F (t.rpm l.rpm.subject) (F.of_nat l.rpm.value) per_minute now in
          (F.less b.tokens (F.of_nat 1) ≡ false)
          × ((t'.rpm l.rpm.subject).tokens ≡ F.sub b.tokens (F.of_nat 1)))

  abbrev pub IsFair : Limits → ℕ → ℕ → Throttle F → Throttle F × Option Refusal → Type 0
  IsFair l now n t (t', none) =
      UnderDaily l n × TakesSlot l t t' × HasTokens l now t × PaysRequest l now t t'
  IsFair l now n t (t', some r) = Refuses l t t' r

  ceil_seconds_positive : (d : ℤ) → 1 ≤ ceil_seconds F d
  unfolding ceil_seconds
  ceil_seconds_positive d = ground arith

  hold_slot-TakesSlot :
      (l : Limits) (t s : Throttle F)
      → s.inflight ≡ t.inflight
      → HasSlot l t
      → TakesSlot l t (hold_slot F l s)
  unfolding hold_slot set
  hold_slot-TakesSlot l t s same free = elim (Bool-cases (ltb 0 l.concurrent.value)) [
    | inr e ↦ rw (hold_slot, e) (inl (ground (arith, e), same))
    | inl e ↦
        let room : t.inflight l.concurrent.subject < l.concurrent.value = ground (arith, e, free) in
        rw (hold_slot, e, set, subject_eq_refl l.concurrent.subject)
          (inr (room, ap (λ (f : Subject → ℕ). f l.concurrent.subject + 1) same))
  ]

  hold_slot-rpm : (l : Limits) (t : Throttle F) → (hold_slot F l t).rpm ≡ t.rpm
  unfolding hold_slot
  hold_slot-rpm l t = elim (Bool-cases (ltb 0 l.concurrent.value)) [
    | inr e ↦ rw (hold_slot, e)
    | inl e ↦ rw (hold_slot, e)
  ]

  -- What a request that pays leaves in the bucket of its subject.
  paid :
      (l : Limits) (now : ℕ) (t s : Throttle F) (b : Bucket F)
      → s.rpm ≡ set t.rpm l.rpm.subject b
      → (s.rpm l.rpm.subject).tokens ≡ b.tokens
  unfolding set
  paid l now t s b e =
      ap (λ (f : Subject → Bucket F). (f l.rpm.subject).tokens) e
      ∙ rw (set, subject_eq_refl l.rpm.subject)

  admit_request-IsFair :
      (l : Limits) (now n : ℕ) (t : Throttle F) (m : Subject → Bucket F)
      → UnderDaily l n
      → HasSlot l t
      → HasTokens l now t
      → IsFair l now n t (admit_request F l now (record t { tpm = m }))
  unfolding admit_request bucket_refusal
  admit_request-IsFair l now n t m daily free tokens = elim (Bool-cases (ltb 0 l.rpm.value)) [
    | inr e ↦
        rw (admit_request, e)
          (
            daily,
            hold_slot-TakesSlot l t (record t { tpm = m }) refl free,
            tokens,
            inl (ground (arith, e)),
          )
    | inl e ↦
        elim (take-cases F (t.rpm l.rpm.subject) (F.of_nat 1) (F.of_nat l.rpm.value) per_minute
          now) [
            | inl (poor, q) ↦
                let b = refill F (t.rpm l.rpm.subject) (F.of_nat l.rpm.value) per_minute now in
                rw (admit_request, e, q)
                  (
                    refl,
                    refl,
                    ground (arith, e),
                    ceil_seconds_positive
                        (wait_for F b (F.of_nat 1) (F.of_nat l.rpm.value) per_minute),
                    refl,
                  )
            | inr (rich, q) ↦
                let b = refill F (t.rpm l.rpm.subject) (F.of_nat l.rpm.value) per_minute now in
                let spent : Bucket F = record b { tokens = F.sub b.tokens (F.of_nat 1) } in
                let s : Throttle F = record t { tpm = m; rpm = set t.rpm l.rpm.subject spent } in
                rw (admit_request, e, q)
                  (
                    daily,
                    hold_slot-TakesSlot l t s refl free,
                    tokens,
                    inr (rich, paid l now t (hold_slot F l s) spent (hold_slot-rpm l s)),
                  )
          ]
  ]

  admit_tokens-IsFair :
      (l : Limits) (now n : ℕ) (t : Throttle F)
      → UnderDaily l n
      → HasSlot l t
      → IsFair l now n t (admit_tokens F l now t)
  unfolding admit_tokens bucket_refusal
  admit_tokens-IsFair l now n t daily free =
      let b = refill F (t.tpm l.tpm.subject) (F.of_nat l.tpm.value) per_minute now in
      elim (Bool-cases (ltb 0 l.tpm.value)) [
        | inr e ↦
            rw (admit_tokens, e)
              (admit_request-IsFair l now n t t.tpm daily free (inl (ground (arith, e))))
        | inl e ↦ elim (Bool-cases (F.less b.tokens (F.of_nat 1))) [
          | inl q ↦
              rw (admit_tokens, e, q)
                (
                  refl,
                  refl,
                  ground (arith, e),
                  ceil_seconds_positive
                      (wait_for F b (F.of_nat 1) (F.of_nat l.tpm.value) per_minute),
                  refl,
                )
          | inr q ↦
              rw (admit_tokens, e, q)
                (admit_request-IsFair l now n t (set t.tpm l.tpm.subject b) daily free (inr q))
        ]
      ]

  pub admit-IsFair :
      (l : Limits) (now n : ℕ) (t : Throttle F) → IsFair l now n t (admit F l now n t)
  unfolding admit daily_refusal slot_refusal seconds_until_daily_reset
  admit-IsFair l now n t = elim (Bool-cases (ltb 0 l.daily.value && leb l.daily.value n)) [
    | inl e ↦
        rw (admit, e)
          (
            refl,
            refl,
            ground (arith, e),
            ceil_seconds_positive (pos (last_daily_reset now + day - now)),
            refl,
          )
    | inr e ↦
        elim (Bool-cases
          (ltb 0 l.concurrent.value && leb l.concurrent.value (t.inflight l.concurrent.subject))) [
            | inl q ↦ rw (admit, e, q) (refl, refl, ground (arith, q), omega arith, refl)
            | inr q ↦
                rw (admit, e, q)
                  (admit_tokens-IsFair l now n t (ground (arith, e)) (ground (arith, q)))
          ]
  ]
