-- ===== src/Gateway/Bucket/Wait.antt =====
-- `refill` and `take` of internal/gateway/throttle.go after a minute.
use nodary.Prelude.{
  ℕ, ◌+◌, ◌-◌, ◌*◌, ◌^◌, ◌≤◌, ◌<◌, ◌≡◌, true, false, some, ltb, leb, pos, subst, ap, ◌∙◌, arith,
}
use nodary.Gateway.Bucket.{Floats, Bucket, second, per_minute, refill, take}

-- What IEEE 754 says of finite float64s: whole numbers up to 2^53 are exact and rounding is monotone.
pub record RoundsMonotonically (F : Floats) : Type 0 where
  pub at_most_nat :
      (m n : ℕ) → m ≤ 2 ^ 53 → n ≤ 2 ^ 53 → F.at_most (F.of_nat m) (F.of_nat n) ≡ leb m n
  pub at_most-trans :
      (x y z : F.Double) → F.at_most x y ≡ true → F.at_most y z ≡ true → F.at_most x z ≡ true
  pub at_most-less : (x y : F.Double) → F.at_most x y ≡ true → F.less y x ≡ false
  pub seconds_whole : (k : ℕ) → k * second < 2 ^ 63 → F.seconds (pos (k * second)) ≡ F.of_nat k
  pub seconds_mono :
      (d e : ℕ) → d ≤ e → e < 2 ^ 63 → F.at_most (F.seconds (pos d)) (F.seconds (pos e)) ≡ true
  pub mul_nat : (m n : ℕ) → m * n ≤ 2 ^ 53 → F.mul (F.of_nat m) (F.of_nat n) ≡ F.of_nat (m * n)
  pub mul_mono :
      (m : ℕ) (x y : F.Double)
      → 0 < m
      → m ≤ 2 ^ 53
      → F.at_most x y ≡ true
      → F.at_most (F.mul (F.of_nat m) x) (F.mul (F.of_nat m) y) ≡ true
  pub div_nat :
      (m n : ℕ) → 0 < n → m * n ≤ 2 ^ 53 → F.div (F.of_nat (m * n)) (F.of_nat n) ≡ F.of_nat m
  pub div_mono :
      (n : ℕ) (x y : F.Double)
      → 0 < n
      → n ≤ 2 ^ 53
      → F.at_most x y ≡ true
      → F.at_most (F.div x (F.of_nat n)) (F.div y (F.of_nat n)) ≡ true
  pub add_positive :
      (m : ℕ) (x y : F.Double)
      → m ≤ 2 ^ 53
      → F.at_most (F.of_nat 0) x ≡ true
      → F.at_most (F.of_nat m) y ≡ true
      → F.at_most (F.of_nat m) (F.add x y) ≡ true
  pub min_least :
      (x y z : F.Double)
      → F.at_most z x ≡ true
      → F.at_most z y ≡ true
      → F.at_most z (F.min x y) ≡ true

module _ (F : Floats) (w : RoundsMonotonically F) where
  -- What a minute or more adds is the capacity or more.
  minute_gain :
      (capacity elapsed : ℕ)
      → 0 < capacity
      → capacity * 60 ≤ 2 ^ 53
      → per_minute ≤ elapsed
      → elapsed < 2 ^ 63
      → F.at_most
          (F.of_nat capacity)
          (F.div (F.mul (F.of_nat capacity) (F.seconds (pos elapsed))) (F.seconds (pos per_minute)))
        ≡ true
  minute_gain capacity elapsed p h long fits =
      let minute = w.seconds_whole 60 (omega arith) in
      let longer = w.seconds_mono per_minute elapsed long fits in
      let more =
        w.mul_mono capacity (F.seconds (pos per_minute)) (F.seconds (pos elapsed)) p
          (omega (arith, h)) longer in
      let shared =
        w.div_mono 60 (F.mul (F.of_nat capacity) (F.seconds (pos per_minute)))
          (F.mul (F.of_nat capacity) (F.seconds (pos elapsed))) (omega arith) (omega arith) more in
      let full : F.div (F.mul (F.of_nat capacity) (F.seconds (pos per_minute))) (F.of_nat 60)
          ≡ F.of_nat capacity =
        ap (λ x. F.div (F.mul (F.of_nat capacity) x) (F.of_nat 60)) minute
        ∙ ap (λ x. F.div x (F.of_nat 60)) (w.mul_nat capacity 60 h)
        ∙ w.div_nat capacity 60 (omega arith) h in
      rw minute (
        subst
          (λ (x : F.Double).
            F.at_most x (F.div (F.mul (F.of_nat capacity) (F.seconds (pos elapsed))) (F.of_nat 60))
            ≡ true)
          full shared)

  -- Where float64s are rounded monotonically and whole numbers up to 2^53 are exact: a bucket that is
  -- not in debt, from which nothing is taken for a minute or more, but less than the longest duration,
  -- grants any number of tokens up to its capacity, for a capacity that is positive and at most 2^53 / 60.
  pub take-after_minute :
      (b : Bucket F) (n capacity t now : ℕ)
      → b.last ≡ some t
      → F.at_most (F.of_nat 0) b.tokens ≡ true
      → 0 < capacity
      → capacity * 60 ≤ 2 ^ 53
      → n ≤ capacity
      → t + per_minute ≤ now
      → now - t < 2 ^ 63
      → (take F b (F.of_nat n) (F.of_nat capacity) per_minute now).1 ≡ true
  unfolding take refill
  take-after_minute b n capacity t now e z p h le long fits =
      let late : ltb t now ≡ true = ground (arith, long) in
      let small : capacity ≤ 2 ^ 53 = omega (arith, h) in
      let asked : F.at_most (F.of_nat n) (F.of_nat capacity) ≡ true =
        w.at_most_nat n capacity (omega (arith, le, small)) small ∙ ground (arith, le) in
      let gain =
        F.div (F.mul (F.of_nat capacity) (F.seconds (pos (now - t))))
          (F.seconds (pos per_minute)) in
      let whole : F.at_most (F.of_nat capacity) (F.of_nat capacity) ≡ true =
        w.at_most_nat capacity capacity small small ∙ ground arith in
      let full = w.min_least (F.of_nat capacity) (F.add b.tokens gain) (F.of_nat capacity) whole (
        w.add_positive capacity b.tokens gain small z
          (minute_gain capacity (now - t) p h (omega (arith, long)) fits)) in
      let held = w.at_most-less (F.of_nat n) (F.min (F.of_nat capacity) (F.add b.tokens gain)) (
        w.at_most-trans (F.of_nat n) (F.of_nat capacity)
          (F.min (F.of_nat capacity) (F.add b.tokens gain)) asked full) in
      rw (e, late, held)
