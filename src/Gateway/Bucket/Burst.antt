-- ===== src/Gateway/Bucket/Burst.antt =====
-- `take` of internal/gateway/throttle.go over requests that come at once.
use nodary.Prelude.{
  ℕ, suc, ◌-◌, ◌^◌, ◌≤◌, ◌<◌, ◌≡◌, refl, true, false, ◌⊎◌, inl, inr, some, List, [], ◌∷◌, ltb,
  if◌then◌else◌, All, Bool-cases, length, arith,
}
use nodary.Gateway.Bucket.{Floats, Bucket, new_bucket, refill, take}

-- Whole numbers up to 2^53 are float64s: they are compared, and subtracted, without rounding.
pub record IsExact (F : Floats) : Type 0 where
  pub less_nat : (m n : ℕ) → m ≤ 2 ^ 53 → n ≤ 2 ^ 53 → F.less (F.of_nat m) (F.of_nat n) ≡ ltb m n
  pub sub_nat : (m n : ℕ) → m ≤ 2 ^ 53 → n ≤ m → F.sub (F.of_nat m) (F.of_nat n) ≡ F.of_nat (m - n)

module _ (F : Floats) where
  -- How many of the requests at these moments, one token each, the bucket lets through.
  unfoldable pub taken : Bucket F → F.Double → ℕ → List ℕ → ℕ
  taken b capacity per [] = 0
  taken b capacity per (now ∷ rest) =
      let r = take F b (F.of_nat 1) capacity per now in
      let n = taken r.0 capacity per rest in if r.1 then suc n else n

  -- As many as are asked for, or as many as there are.
  abbrev pub LetsThrough : ℕ → ℕ → ℕ → Type 0
  LetsThrough m asked n = ((asked ≤ m) × (n ≡ asked)) ⊎ ((m < asked) × (n ≡ m))

  refill-again :
      (b : Bucket F) (capacity : F.Double) (per t now : ℕ)
      → b.last ≡ some t
      → now ≤ t
      → refill F b capacity per now ≡ b
  unfolding refill
  refill-again b capacity per t now e h =
      let late : ltb t now ≡ false = ground (arith, h) in rw (e, late) refl

  abbrev holding : ℕ → ℕ → Bucket F
  holding m t = record { tokens = F.of_nat m; last = some t }

  -- One token is taken from a bucket that the refill leaves with a whole number of them.
  take-holding :
      IsExact F
      → (b : Bucket F) (capacity : F.Double) (per now m t : ℕ) → m ≤ 2 ^ 53
      → refill F b capacity per now ≡ holding m t
      → ((m ≡ 0) × (take F b (F.of_nat 1) capacity per now ≡ (holding m t, false)))
        ⊎ ((1 ≤ m) × (take F b (F.of_nat 1) capacity per now ≡ (holding (m - 1) t, true)))
  unfolding take
  take-holding w b capacity per now m t h e =
      let compared = w.less_nat m 1 h (omega arith) in
      elim (Bool-cases (ltb m 1)) [
        | inl low ↦ inl (ground (arith, low), rw (take, e, compared, low))
        | inr high ↦
            let some_left : 1 ≤ m = ground (arith, high) in
            inr (some_left, rw (take, e, compared, high, w.sub_nat m 1 h some_left))
      ]

  taken-step :
      IsExact F
      → (b : Bucket F) (capacity : F.Double) (per now m t : ℕ) (rest : List ℕ) → m ≤ 2 ^ 53
      → refill F b capacity per now ≡ holding m t
      → ((k : ℕ) → k ≤ 2 ^ 53 → LetsThrough k (length rest) (taken (holding k t) capacity per rest))
      → LetsThrough m (suc (length rest)) (taken b capacity per (now ∷ rest))
  unfolding taken
  taken-step w b capacity per now m t rest h e later =
      elim (take-holding w b capacity per now m t h e) [
        | inl (z, q) ↦ rw (taken, q) (ground (arith, z, later m h))
        | inr (z, q) ↦ rw (taken, q) (ground (arith, z, later (m - 1) (omega (arith, h))))
      ]

  taken-holding :
      IsExact F
      → (capacity : F.Double) (per t m : ℕ) (times : List ℕ) → m ≤ 2 ^ 53
      → All (λ now. now ≤ t) times
      → LetsThrough m (length times) (taken (holding m t) capacity per times)
  unfolding taken
  taken-holding w capacity per t m [] h a = inl (omega arith, refl)
  taken-holding w capacity per t m (now ∷ rest) h (x, a) =
      taken-step w (holding m t) capacity per now m t rest h
        (refill-again (holding m t) capacity per t now refl x)
        (λ k below. taken-holding w capacity per t k rest below a)

  -- Where whole numbers up to 2^53 are exact: of requests for one token each, none later than the first,
  -- a new bucket of a capacity of at most 2^53 lets through all, or as many as its capacity if they are more.
  pub taken-burst :
      IsExact F
      → (capacity per now : ℕ) (rest : List ℕ) → capacity ≤ 2 ^ 53
      → All (λ t. t ≤ now) rest
      → LetsThrough capacity
          (suc (length rest))
          (taken (new_bucket F) (F.of_nat capacity) per (now ∷ rest))
  unfolding refill
  taken-burst w capacity per now rest h a =
      taken-step w (new_bucket F) (F.of_nat capacity) per now capacity now rest h refl
        (λ k below. taken-holding w (F.of_nat capacity) per now k rest below a)
