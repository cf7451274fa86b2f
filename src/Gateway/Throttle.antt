-- ===== src/Gateway/Throttle.antt =====
-- `throttle` of internal/gateway/throttle.go: admission, release, the daily reset and the
-- server's call of them. The two maps of the code are functions, where a missing key reads as the
-- zero value, and the prefix of a key says which of the three functions it is a key of.
pub mod Slots
pub mod Fair
pub mod Answers
use nodary.Prelude.{
  ℕ, ◌+◌, ◌-◌, ◌*◌, ◌/◌, Bool, true, false, ◌&&◌, Option, none, some, ltb, leb, pos, List,
  if◌then◌else◌, str_eq,
}
use nodary.Gateway.Limits.{Subject, Limit, Limits, Row, Principal, none_apply, limits_for}
use nodary.Gateway.Bucket.{
  Floats, Bucket, second, per_minute, refill, take, spend, wait_for, ceil_seconds,
}

-- The ceiling that refused.
pub data Ceiling : Type 0 where
  daily_tokens : Ceiling
  max_concurrent : Ceiling
  tokens_per_minute : Ceiling
  requests_per_minute : Ceiling

pub record Refusal : Type 0 where
  pub limit : Ceiling
  pub subject : Subject
  pub value : ℕ
  pub used : ℕ
  pub resets_in : ℕ

unfoldable pub subject_eq : Subject → Subject → Bool
subject_eq Subject.nobody Subject.nobody = true
subject_eq (Subject.user a) (Subject.user b) = str_eq a b
subject_eq (Subject.role a) (Subject.role b) = str_eq a b
subject_eq Subject.global Subject.global = true
subject_eq _ _ = false

unfoldable pub set : {A : Type 0} → (Subject → A) → Subject → A → Subject → A
set m s a x = if subject_eq x s then a else m x

abbrev pub day : ℕ
day = 86400 * second

abbrev pub daily_reset_hour : ℕ
daily_reset_hour = 0

-- A moment counts from 1970; the first day is left out.
unfoldable pub last_daily_reset : ℕ → ℕ
last_daily_reset now =
    let reset = now / day * day + daily_reset_hour * (3600 * second) in
    if ltb now reset then reset - day else reset

-- What the server does: the answer is the limits to release under, none for a caller without
-- limits, or the refusal.
pub data Answer : Type 0 where
  unlimited : Answer
  admitted : Limits → Answer
  refused : Refusal → Answer
  failed : Answer

-- What the requests of the day have used, which is read only for a daily ceiling; `none` is an error.
unfoldable pub daily_used : Limits → Option ℕ → Option ℕ
daily_used l used_today = if ltb 0 l.daily.value then used_today else some 0

module _ (F : Floats) where
  pub record Throttle : Type 0 where
    pub tpm : Subject → Bucket F
    pub rpm : Subject → Bucket F
    pub inflight : Subject → ℕ

  unfoldable pub seconds_until_daily_reset : ℕ → ℕ
  seconds_until_daily_reset now = ceil_seconds F (pos (last_daily_reset now + day - now))

  -- What the four refusals say.
  unfoldable pub daily_refusal : Limits → ℕ → ℕ → Refusal
  daily_refusal l now used = record {
    limit = Ceiling.daily_tokens;
    subject = l.daily.subject;
    value = l.daily.value;
    used = used;
    resets_in = seconds_until_daily_reset now;
  }

  unfoldable pub slot_refusal : Limits → ℕ → Refusal
  slot_refusal l used = record {
    limit = Ceiling.max_concurrent;
    subject = l.concurrent.subject;
    value = l.concurrent.value;
    used = used;
    resets_in = 1;
  }

  unfoldable pub bucket_refusal : Ceiling → Limit → Bucket F → Refusal
  bucket_refusal c l b = record {
    limit = c;
    subject = l.subject;
    value = l.value;
    used = l.value;
    resets_in = ceil_seconds F (wait_for F b (F.of_nat 1) (F.of_nat l.value) per_minute);
  }

  unfoldable pub hold_slot : Limits → Throttle → Throttle
  hold_slot l t =
      if ltb 0 l.concurrent.value
      then record t {
        inflight = set t.inflight l.concurrent.subject (t.inflight l.concurrent.subject + 1);
      }
      else t

  -- `none` admits.
  unfoldable pub admit_request : Limits → ℕ → Throttle → Throttle × Option Refusal
  admit_request l now t =
      let b = take F (t.rpm l.rpm.subject) (F.of_nat 1) (F.of_nat l.rpm.value) per_minute now in
      let t' : Throttle = record t { rpm = set t.rpm l.rpm.subject b.0 } in
      if ltb 0 l.rpm.value
      then (if b.1
          then (hold_slot l t', none)
          else (t', some (bucket_refusal Ceiling.requests_per_minute l.rpm b.0)))
      else (hold_slot l t, none)

  unfoldable pub admit_tokens : Limits → ℕ → Throttle → Throttle × Option Refusal
  admit_tokens l now t =
      let b = refill F (t.tpm l.tpm.subject) (F.of_nat l.tpm.value) per_minute now in
      let t' : Throttle = record t { tpm = set t.tpm l.tpm.subject b } in
      if ltb 0 l.tpm.value
      then (if F.less b.tokens (F.of_nat 1)
          then (t', some (bucket_refusal Ceiling.tokens_per_minute l.tpm b))
          else admit_request l now t')
      else admit_request l now t

  unfoldable pub admit : Limits → ℕ → ℕ → Throttle → Throttle × Option Refusal
  admit l now daily_used t =
      if ltb 0 l.daily.value && leb l.daily.value daily_used
      then (t, some (daily_refusal l now daily_used))
      else (if ltb 0 l.concurrent.value && leb l.concurrent.value (t.inflight l.concurrent.subject)
          then (t, some (slot_refusal l (t.inflight l.concurrent.subject)))
          else admit_tokens l now t)

  -- The function that `admit` returns, which keeps the limits it was admitted under. A count that
  -- falls to 0 leaves the map, and reads as 0.
  unfoldable pub free_slot : Limits → Throttle → Throttle
  free_slot l t =
      if ltb 0 l.concurrent.value
      then record t {
        inflight = set t.inflight l.concurrent.subject (t.inflight l.concurrent.subject - 1);
      }
      else t

  unfoldable pub release : Limits → ℕ → ℕ → Throttle → Throttle
  release l tokens now t =
      let t' = free_slot l t in
      if ltb 0 l.tpm.value && ltb 0 tokens
      then record t' {
        tpm = set t'.tpm l.tpm.subject (
            spend F (t'.tpm l.tpm.subject) (F.of_nat tokens) (F.of_nat l.tpm.value) per_minute now);
      }
      else t'

  unfoldable pub answer_of : Limits → Throttle × Option Refusal → Throttle × Answer
  answer_of l (t, none) = (t, Answer.admitted l)
  answer_of l (t, some r) = (t, Answer.refused r)

  -- `rows` is the table that `limitsFor` reads and `used_today` the sum that `dailyTokensUsed` reads, or their
  -- errors.
  unfoldable pub server_admit :
      Principal → Option (List Row) → ℕ → Option ℕ → Throttle → Throttle × Answer
  server_admit p none now used_today t = (t, Answer.failed)
  server_admit p (some rows) now used_today t =
      let l = limits_for p rows in
      if none_apply l then (t, Answer.unlimited) else elim (daily_used l used_today) [
        | none ↦ (t, Answer.failed)
        | some n ↦ answer_of l (admit l now n t)
      ]
