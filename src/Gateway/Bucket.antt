-- ===== src/Gateway/Bucket.antt =====
-- `bucket` and `ceilSeconds` of internal/gateway/throttle.go. The arithmetic of float64 is the
-- machine's and a parameter, `Floats`: nothing of it is assumed by the definitions. A moment is a number of
-- nanoseconds, and so is a `time.Duration`, which is signed.
pub mod Burst
pub mod Wait
use nodary.Prelude.{
  ℕ, ◌-◌, ◌*◌, Bool, true, false, ◌||◌, Option, none, some, ltb, ℤ, pos, pos_part, if◌then◌else◌,
  ◌≡◌, ◌⊎◌, inl, inr, Bool-cases,
}

-- float64, its arithmetic and comparisons, `math.Min` and `math.Ceil` to an int, the conversion of an int,
-- `Duration.Seconds`, and the conversion to a Duration.
pub record Floats : Type 1 where
  pub Double : Type 0
  pub of_nat : ℕ → Double
  pub add : Double → Double → Double
  pub sub : Double → Double → Double
  pub mul : Double → Double → Double
  pub div : Double → Double → Double
  pub min : Double → Double → Double
  pub less : Double → Double → Bool
  pub at_most : Double → Double → Bool
  pub ceil : Double → ℤ
  pub seconds : ℤ → Double
  pub to_duration : Double → ℤ

abbrev pub second : ℕ
second = 1000000000

abbrev pub per_minute : ℕ
per_minute = 60 * second

module _ (F : Floats) where
  -- `last` is `none` for the zero time.
  pub record Bucket : Type 0 where
    pub tokens : F.Double
    pub last : Option ℕ

  abbrev pub new_bucket : Bucket
  new_bucket = record { tokens = F.of_nat 0; last = none }

  unfoldable pub refill : Bucket → F.Double → ℕ → ℕ → Bucket
  refill b capacity per now = elim b.last [
    | none ↦ record { tokens = capacity; last = some now }
    | some t ↦
        if ltb t now
        then record {
          tokens = F.min capacity (
              F.add b.tokens
                (F.div (F.mul capacity (F.seconds (pos (now - t)))) (F.seconds (pos per))));
          last = some now;
        }
        else b
  ]

  unfoldable pub take : Bucket → F.Double → F.Double → ℕ → ℕ → Bucket × Bool
  take b n capacity per now =
      let b' = refill b capacity per now in
      if F.less b'.tokens n then (b', false) else (record b' { tokens = F.sub b'.tokens n }, true)

  pub take-cases :
      (b : Bucket) (n capacity : F.Double) (per now : ℕ)
      → let b' = refill b capacity per now in
        ((F.less b'.tokens n ≡ true) × (take b n capacity per now ≡ (b', false)))
        ⊎ ((F.less b'.tokens n ≡ false)
            × (take b n capacity per now ≡ (record b' { tokens = F.sub b'.tokens n }, true)))
  unfolding take
  take-cases b n capacity per now =
      elim (Bool-cases (F.less (refill b capacity per now).tokens n)) [
        | inl e ↦ inl (e, rw (take, e))
        | inr e ↦ inr (e, rw (take, e))
      ]

  unfoldable pub spend : Bucket → F.Double → F.Double → ℕ → ℕ → Bucket
  spend b n capacity per now =
      let b' = refill b capacity per now in record b' { tokens = F.sub b'.tokens n }

  -- How long until the bucket holds `n` tokens again.
  unfoldable pub wait_for : Bucket → F.Double → F.Double → ℕ → ℤ
  wait_for b n capacity per =
      if F.at_most n b.tokens || F.at_most capacity (F.of_nat 0)
      then pos 0
      else F.to_duration (
          F.mul (F.mul (F.div (F.sub n b.tokens) capacity) (F.seconds (pos per))) (F.of_nat second))

  -- Never 0.
  unfoldable pub ceil_seconds : ℤ → ℕ
  ceil_seconds d = let s = pos_part (F.ceil (F.seconds d)) in if ltb 0 s then s else 1
