-- ===== src/Gateway/Throttle/Slots.antt =====
-- The slots of the concurrency ceiling of internal/gateway/throttle.go, over any interleaving of
-- admissions and releases.
use nodary.Prelude.{
  ℕ, ◌+◌, ◌≤◌, ◌<◌, ◌≡◌, refl, ap, ◌∙◌, true, ◌&&◌, Option, none, some, ◌⊎◌, inl, inr, List, [],
  ◌∷◌, ◌++◌, ltb, leb, if◌then◌else◌, Bool-cases, arith, eq_iff,
}
use nodary.Gateway.Limits.{Subject, Limits}
use nodary.Gateway.Bucket.{Floats, new_bucket, per_minute, refill, take}
use nodary.Gateway.Throttle.{
  Throttle, Refusal, subject_eq, set, hold_slot, admit_request, admit_tokens, admit, free_slot,
  release,
}

subject_eq_sound : (s s' : Subject) → subject_eq s s' ≡ true → s ≡ s'
unfolding subject_eq
subject_eq_sound Subject.nobody Subject.nobody e = refl
subject_eq_sound Subject.nobody (Subject.user b) e = absurd (ground (arith, e))
subject_eq_sound Subject.nobody (Subject.role b) e = absurd (ground (arith, e))
subject_eq_sound Subject.nobody Subject.global e = absurd (ground (arith, e))
subject_eq_sound (Subject.user a) Subject.nobody e = absurd (ground (arith, e))
subject_eq_sound (Subject.user a) (Subject.user b) e =
    ap Subject.user (ground (arith, e, eq_iff a b))
subject_eq_sound (Subject.user a) (Subject.role b) e = absurd (ground (arith, e))
subject_eq_sound (Subject.user a) Subject.global e = absurd (ground (arith, e))
subject_eq_sound (Subject.role a) Subject.nobody e = absurd (ground (arith, e))
subject_eq_sound (Subject.role a) (Subject.user b) e = absurd (ground (arith, e))
subject_eq_sound (Subject.role a) (Subject.role b) e =
    ap Subject.role (ground (arith, e, eq_iff a b))
subject_eq_sound (Subject.role a) Subject.global e = absurd (ground (arith, e))
subject_eq_sound Subject.global Subject.nobody e = absurd (ground (arith, e))
subject_eq_sound Subject.global (Subject.user b) e = absurd (ground (arith, e))
subject_eq_sound Subject.global (Subject.role b) e = absurd (ground (arith, e))
subject_eq_sound Subject.global Subject.global e = refl

-- Whether a request admitted under these limits holds a slot of the subject, as a number.
abbrev pub slot : Subject → Limits → ℕ
slot s l = if ltb 0 l.concurrent.value && subject_eq s l.concurrent.subject then 1 else 0

-- The slots that the requests still open hold.
abbrev pub held : Subject → List Limits → ℕ
held s [] = 0
held s (l ∷ pending) = slot s l + held s pending

held-remove :
    (s : Subject) (l : Limits) (before after : List Limits)
    → held s (before ++ (l ∷ after)) ≡ slot s l + held s (before ++ after)
held-remove s l [] after = refl
held-remove s l (x ∷ before) after = omega (arith, held-remove s l before after)

module _ (F : Floats) where
  abbrev pub empty_throttle : Throttle F
  empty_throttle = record { tpm = λ s. new_bucket F; rpm = λ s. new_bucket F; inflight = λ s. 0 }

  -- A request is admitted and stays open, is refused, or ends. `release` is called once for each
  -- request admitted, in any order.
  pub data Step : Throttle F → List Limits → Throttle F → List Limits → Type 0 where
    admits :
        (l : Limits) (now used : ℕ) (t : Throttle F) (pending : List Limits)
        → (admit F l now used t).1 ≡ none
        → Step t pending (admit F l now used t).0 (l ∷ pending)
    refuses :
        (l : Limits) (now used : ℕ) (t : Throttle F) (pending : List Limits) (r : Refusal)
        → (admit F l now used t).1 ≡ some r
        → Step t pending (admit F l now used t).0 pending
    ends :
        (l : Limits) (tokens now : ℕ) (t : Throttle F) (before after : List Limits)
        → Step t (before ++ (l ∷ after)) (release F l tokens now t) (before ++ after)

  pub data Reach : Throttle F → List Limits → Type 0 where
    starts : Reach empty_throttle []
    steps :
        {t : Throttle F} {pending : List Limits} {t' : Throttle F} {pending' : List Limits}
        → Reach t pending
        → Step t pending t' pending'
        → Reach t' pending'

  abbrev Counts : Throttle F → List Limits → Type 0
  Counts t pending = (s : Subject) → t.inflight s ≡ held s pending

  -- What an admission does to the slots.
  abbrev Outcome : Limits → Throttle F → Throttle F × Option Refusal → Type 0
  Outcome l t r =
      ((r.1 ≡ none) × (r.0.inflight ≡ (hold_slot F l t).inflight))
      ⊎ ((q : Refusal) × (r.1 ≡ some q) × (r.0.inflight ≡ t.inflight))

  hold_slot-inflight :
      (l : Limits) (t t' : Throttle F)
      → t'.inflight ≡ t.inflight
      → (hold_slot F l t').inflight ≡ (hold_slot F l t).inflight
  unfolding hold_slot
  hold_slot-inflight l t t' e = elim (Bool-cases (ltb 0 l.concurrent.value)) [
    | inl h ↦ rw (h, e)
    | inr h ↦ rw (h, e)
  ]

  refused-Outcome :
      (l : Limits) (t t' : Throttle F) (q : Refusal)
      → t'.inflight ≡ t.inflight
      → Outcome l t (t', some q)
  refused-Outcome l t t' q e = inr (q, refl, e)

  held-Outcome :
      (l : Limits) (t t' : Throttle F)
      → t'.inflight ≡ t.inflight
      → Outcome l t (hold_slot F l t', none)
  held-Outcome l t t' e = inl (refl, hold_slot-inflight l t t' e)

  admit_request-Outcome :
      (l : Limits) (now : ℕ) (t t' : Throttle F)
      → t'.inflight ≡ t.inflight
      → Outcome l t (admit_request F l now t')
  unfolding admit_request
  admit_request-Outcome l now t t' e = elim (Bool-cases (ltb 0 l.rpm.value)) [
    | inr h ↦ rw h (held-Outcome l t t' e)
    | inl h ↦
        elim (Bool-cases
          (take F (t'.rpm l.rpm.subject) (F.of_nat 1) (F.of_nat l.rpm.value) per_minute now).1) [
            | inl k ↦
                rw (h, k)
                  (held-Outcome l t
                    (record t' {
                      rpm =
                          set t'.rpm l.rpm.subject
                            (take F (t'.rpm l.rpm.subject) (F.of_nat 1) (F.of_nat l.rpm.value)
                              per_minute now).0;
                    })
                    e)
            | inr k ↦
                rw (h, k)
                  (refused-Outcome l t
                    (record t' {
                      rpm =
                          set t'.rpm l.rpm.subject
                            (take F (t'.rpm l.rpm.subject) (F.of_nat 1) (F.of_nat l.rpm.value)
                              per_minute now).0;
                    })
                    _ e)
          ]
  ]

  admit_tokens-Outcome :
      (l : Limits) (now : ℕ) (t : Throttle F) → Outcome l t (admit_tokens F l now t)
  unfolding admit_tokens
  admit_tokens-Outcome l now t = elim (Bool-cases (ltb 0 l.tpm.value)) [
    | inr h ↦ rw h (admit_request-Outcome l now t t refl)
    | inl h ↦
        elim (Bool-cases (
          F.less (refill F (t.tpm l.tpm.subject) (F.of_nat l.tpm.value) per_minute now).tokens
            (F.of_nat 1))) [
              | inl k ↦
                  rw (h, k)
                    (refused-Outcome l t
                      (record t {
                        tpm =
                            set t.tpm l.tpm.subject (
                              refill F (t.tpm l.tpm.subject) (F.of_nat l.tpm.value) per_minute now);
                      })
                      _ refl)
              | inr k ↦
                  rw (h, k)
                    (admit_request-Outcome l now t
                      (record t {
                        tpm =
                            set t.tpm l.tpm.subject (
                              refill F (t.tpm l.tpm.subject) (F.of_nat l.tpm.value) per_minute now);
                      })
                      refl)
            ]
  ]

  admit-Outcome : (l : Limits) (now used : ℕ) (t : Throttle F) → Outcome l t (admit F l now used t)
  unfolding admit
  admit-Outcome l now used t = elim (Bool-cases (ltb 0 l.daily.value && leb l.daily.value used)) [
    | inl h ↦ rw h (refused-Outcome l t t _ refl)
    | inr h ↦
        elim (Bool-cases
          (ltb 0 l.concurrent.value && leb l.concurrent.value (t.inflight l.concurrent.subject))) [
            | inl k ↦ rw (h, k) (refused-Outcome l t t _ refl)
            | inr k ↦ rw (h, k) (admit_tokens-Outcome l now t)
          ]
  ]

  -- An admission means that a slot was free.
  admitted_has_slot :
      (l : Limits) (now used : ℕ) (t : Throttle F)
      → (admit F l now used t).1 ≡ none
      → 0 < l.concurrent.value
      → t.inflight l.concurrent.subject < l.concurrent.value
  unfolding admit
  admitted_has_slot l now used t e v =
      elim (Bool-cases (ltb 0 l.daily.value && leb l.daily.value used)) [
        | inl h ↦ absurd (cc (rw h at e))
        | inr h ↦
            elim (Bool-cases (
              ltb 0 l.concurrent.value
              && leb l.concurrent.value (t.inflight l.concurrent.subject))) [
                | inl k ↦ absurd (cc (rw (h, k) at e))
                | inr k ↦ ground (arith, k, v)
              ]
      ]

  hold_slot-Counts :
      (l : Limits) (t : Throttle F) (pending : List Limits)
      → Counts t pending
      → Counts (hold_slot F l t) (l ∷ pending)
  unfolding hold_slot set
  hold_slot-Counts l t pending c s = elim (Bool-cases (ltb 0 l.concurrent.value)) [
    | inr h ↦ rw h (ground (arith, c s))
    | inl h ↦ elim (Bool-cases (subject_eq s l.concurrent.subject)) [
      | inr k ↦ rw (h, k) (ground (arith, c s))
      | inl k ↦ rw (h, k) (count (subject_eq_sound s l.concurrent.subject k))
    ]
  ]
    where
      count : s ≡ l.concurrent.subject → t.inflight l.concurrent.subject + 1 ≡ 1 + held s pending
      count e = omega (arith, c s, ap t.inflight e)

  free_slot-Counts :
      (l : Limits) (t : Throttle F) (before after : List Limits)
      → Counts t (before ++ (l ∷ after))
      → Counts (free_slot F l t) (before ++ after)
  unfolding free_slot set
  free_slot-Counts l t before after c s =
      let c' : t.inflight s ≡ slot s l + held s (before ++ after) =
        c s ∙ held-remove s l before after in
      elim (Bool-cases (ltb 0 l.concurrent.value)) [
        | inr h ↦ rw h (ground (arith, c', h))
        | inl h ↦ elim (Bool-cases (subject_eq s l.concurrent.subject)) [
          | inr k ↦ rw (h, k) (ground (arith, c', h, k))
          | inl k ↦
              let e = ap t.inflight (subject_eq_sound s l.concurrent.subject k) in
              rw (h, k) (ground (arith, c', h, k, e))
        ]
      ]

  release-Counts :
      (l : Limits) (tokens now : ℕ) (t : Throttle F) (pending : List Limits)
      → Counts (free_slot F l t) pending
      → Counts (release F l tokens now t) pending
  unfolding release
  release-Counts l tokens now t pending c s =
      elim (Bool-cases (ltb 0 l.tpm.value && ltb 0 tokens)) [
        | inl h ↦ rw h (c s)
        | inr h ↦ rw h (c s)
      ]

  Step-Counts :
      {t : Throttle F} {pending : List Limits} {t' : Throttle F} {pending' : List Limits}
      → Step t pending t' pending'
      → Counts t pending
      → Counts t' pending'
  Step-Counts (Step.admits l now used t pending e) c s = elim (admit-Outcome l now used t) [
    | inl (_, q) ↦ ap (λ (f : Subject → ℕ). f s) q ∙ hold_slot-Counts l t pending c s
    | inr (r, q, _) ↦ absurd (cc (e, q))
  ]
  Step-Counts (Step.refuses l now used t pending r e) c s = elim (admit-Outcome l now used t) [
    | inl (q, _) ↦ absurd (cc (e, q))
    | inr (_, _, q) ↦ ap (λ (f : Subject → ℕ). f s) q ∙ c s
  ]
  Step-Counts (Step.ends l tokens now t before after) c s =
      release-Counts l tokens now t (before ++ after) (free_slot-Counts l t before after c) s

  -- However admissions, refusals and releases interleave, the count of every subject is the number
  -- of its requests that still run: a refusal keeps no slot, and each release gives back the slot
  -- that its admission took.
  pub inflight-held :
      {t : Throttle F} {pending : List Limits}
      → Reach t pending
      → (s : Subject) → t.inflight s ≡ held s pending
  inflight-held Reach.starts s = refl
  inflight-held (Reach.steps r step) s = Step-Counts step (inflight-held r) s

  -- An admission under a concurrency ceiling leaves at most as many requests of its subject running
  -- as the ceiling says, in every reachable state.
  admit-within :
      {t : Throttle F} {pending : List Limits}
      → Reach t pending
      → (l : Limits) (now used : ℕ) → (admit F l now used t).1 ≡ none
      → 0 < l.concurrent.value
      → held l.concurrent.subject (l ∷ pending) ≤ l.concurrent.value
  admit-within {t} {pending} r l now used e v =
      let h = admitted_has_slot l now used t e v in
      let c = inflight-held r l.concurrent.subject in
      let k : slot l.concurrent.subject l ≤ 1 = ground arith in omega (arith, h, c, k)
