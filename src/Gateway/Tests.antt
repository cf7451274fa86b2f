-- ===== src/Gateway/Tests.antt =====
-- Witnesses of the gateway's theorems.
use nodary.Prelude.{
  ℕ, ◌+◌, ◌*◌, ◌-◌, ◌/◌, ◌≡◌, refl, true, none, some, List, [], ◌∷◌, pos, pos_part, negsuc, ltb,
  leb, if◌then◌else◌, arith,
}
use nodary.Gateway.Limits.{
  none_apply, reduce, matches, tighten_row, tighten, Subject, Limits, Row, Principal, limits_for,
  no_limit,
}
use nodary.Gateway.Limits.Tightest.{IsTightest, limits_for-IsTightest}
use nodary.Gateway.Bucket.{Floats, Bucket, new_bucket, second, per_minute, take}
use nodary.Gateway.Bucket.Burst.{IsExact, taken, LetsThrough, taken-burst}
use nodary.Gateway.Bucket.Wait.{RoundsMonotonically, take-after_minute}
use nodary.Gateway.Throttle.Answers.{Told, server_admit-Told}
use nodary.Gateway.Throttle.{
  Ceiling, Answer, server_admit, daily_used, answer_of, slot_refusal, Throttle, admit,
  admit_request, admit_tokens, hold_slot, set, subject_eq, day,
}
use nodary.Gateway.Throttle.Slots.{empty_throttle, held, Step, Reach, inflight-held}
use native.Mathlib.Nat.{mul-le-mul_left, mul-div_cancel, div-mul-le_self, le-div_iff_mul-le}

abbrev alice : Principal
alice = record { name = "alice"; id = "u1"; role = "user" }

abbrev rows : List Row
rows =
    record {
      subject = Subject.global;
      rpm = pos 60;
      tpm = pos 0;
      daily_tokens = pos 1000;
      max_concurrent = pos 4;
    }
    ∷ record {
      subject = Subject.user "alice";
      rpm = pos 10;
      tpm = pos 0;
      daily_tokens = negsuc 0;
      max_concurrent = pos 2;
    }
    ∷ []

limits_for-IsTightest_example :
    IsTightest alice (λ r. r.rpm) rows (limits_for alice rows).rpm
    × IsTightest alice (λ r. r.tpm) rows (limits_for alice rows).tpm
    × IsTightest alice (λ r. r.daily_tokens) rows (limits_for alice rows).daily
    × IsTightest alice (λ r. r.max_concurrent) rows (limits_for alice rows).concurrent
limits_for-IsTightest_example = limits_for-IsTightest alice rows

abbrev two_at_once : Limits
two_at_once = record {
  rpm = no_limit;
  tpm = no_limit;
  daily = no_limit;
  concurrent = record { value = 2; subject = Subject.global };
}

-- Whole numbers, and results that are rounded down to one.
abbrev whole_numbers : Floats
whole_numbers = record {
  Double = ℕ;
  of_nat = λ n. n;
  add = λ m n. m + n;
  sub = λ m n. m - n;
  mul = λ m n. m * n;
  div = λ m n. m / n;
  min = λ m n. if leb m n then m else n;
  less = ltb;
  at_most = leb;
  ceil = pos;
  seconds = λ d. pos_part d / second;
  to_duration = pos;
}

whole_numbers-IsExact : IsExact whole_numbers
whole_numbers-IsExact = record { less_nat = λ m n h k. refl; sub_nat = λ m n h k. refl }

whole_numbers-RoundsMonotonically : RoundsMonotonically whole_numbers
whole_numbers-RoundsMonotonically = record {
  at_most_nat = λ m n h k. refl;
  at_most-trans = λ x y z h k. ground (arith, h, k);
  at_most-less = λ x y h. ground (arith, h);
  seconds_whole = λ k h. omega arith;
  seconds_mono = λ d e h k. ground (arith, h);
  mul_nat = λ m n h. refl;
  mul_mono = λ m x y p h k.
      (let le = mul-le-mul_left {m = x} {n = y} m (ground (arith, k)) in ground (arith, le));
  div_nat = λ m n p h. mul-div_cancel m {n = n} p;
  div_mono = λ n x y p h k.
      (let part = div-mul-le_self x n in
        let le = (le-div_iff_mul-le {k = n} {x = x / n} {y = y} p).1 (ground (arith, k, part)) in
        ground (arith, le));
  add_positive = λ m x y h z k. ground (arith, k);
  min_least = λ x y z h k. ground (arith, h, k);
}

-- Two of the four requests at one moment are let through.
taken-burst_example :
    LetsThrough whole_numbers 2 4
      (taken whole_numbers (new_bucket whole_numbers) 2 per_minute (12 ∷ 11 ∷ 12 ∷ 10 ∷ []))
taken-burst_example =
    taken-burst whole_numbers whole_numbers-IsExact 2 per_minute 12 (11 ∷ 12 ∷ 10 ∷ [])
      (omega arith) (omega arith, (omega arith, (omega arith, tt)))

-- A bucket of ten tokens a minute that is empty.
abbrev drained : Bucket whole_numbers
drained = record { tokens = 0; last = some 100 }

take-after_minute_example : (take whole_numbers drained 7 10 per_minute (per_minute + 100)).1 ≡ true
take-after_minute_example =
    take-after_minute whole_numbers whole_numbers-RoundsMonotonically drained 7 10 100
      (per_minute + 100) refl refl (omega arith) (omega arith) (omega arith) (omega arith)
      (omega arith)

abbrev one_running : Throttle whole_numbers
one_running = (admit whole_numbers two_at_once 5 0 (empty_throttle whole_numbers)).0

is_admitted : (admit whole_numbers two_at_once 5 0 (empty_throttle whole_numbers)).1 ≡ none
unfolding admit admit_tokens admit_request
is_admitted = refl

is_admitted_again : (admit whole_numbers two_at_once 6 0 one_running).1 ≡ none
unfolding admit admit_tokens admit_request hold_slot set subject_eq
is_admitted_again = refl

abbrev reached : Reach whole_numbers one_running (two_at_once ∷ [])
reached =
    Reach.steps Reach.starts
      (Step.admits two_at_once 5 0 (empty_throttle whole_numbers) [] is_admitted)

inflight-held_example : one_running.inflight Subject.global ≡ held Subject.global (two_at_once ∷ [])
inflight-held_example = inflight-held whole_numbers reached Subject.global

abbrev noon : ℕ
noon = 20000 * day + 43200 * second

abbrev crowded : Throttle whole_numbers
crowded = record (empty_throttle whole_numbers) { inflight = λ s. 2 }

server_admit-Told_example :
    Told whole_numbers alice
      (some rows)
      (2 * day)
      (some 5)
      crowded
      (server_admit whole_numbers alice (some rows) (2 * day) (some 5) crowded)
server_admit-Told_example =
    server_admit-Told whole_numbers alice (some rows) (2 * day) (some 5) crowded

-- Alice's own row allows two requests at a time.
is_refused :
    (server_admit whole_numbers alice (some rows) (2 * day) (some 5) crowded).1
    ≡ Answer.refused (record {
      limit = Ceiling.max_concurrent;
      subject = Subject.user "alice";
      value = 2;
      used = 2;
      resets_in = 1;
    })
unfolding server_admit limits_for daily_used answer_of admit none_apply reduce matches tighten_row
    tighten slot_refusal
is_refused = refl
