-- ===== src/Canonical/Number/Digits.antt =====
-- The decimal digits of an integer, and what internal/canonical/number.go makes of them.
use nodary.Prelude.{
  ℕ, zero, suc, ◌+◌, ◌-◌, ◌*◌, ◌/◌, ◌%◌, ◌≤◌, ◌<◌, ◌≡◌, refl, sym, ap, ◌∙◌, Bool, true, ◌&&◌, some,
  [], ◌∷◌, ◌++◌, ltb, leb, ◌==◌, ◌⊎◌, inl, inr, All, Bool-cases, arith, length, length-append, ℤ,
  pos, negsuc,
}
use nodary.Canonical.Text.{Text}
use nodary.Canonical.Number.{
  Float, zeros, digits_from, digits_of, sign, write_decimal, format_number, strip_zeros, magnitude,
  is_negative, float_of_int, write_int, max_exact, format_int,
}

-- The number that digits stand for.
abbrev pub value_from : ℕ → Text → ℕ
value_from acc [] = acc
value_from acc (c ∷ s) = value_from (acc * 10 + (c - b'0')) s

value_from-snoc :
    (acc : ℕ) (s : Text) (d : ℕ) → value_from acc (s ++ d ∷ []) ≡ value_from acc s * 10 + (d - b'0')
value_from-snoc acc [] d = refl
value_from-snoc acc (c ∷ s) d = value_from-snoc (acc * 10 + (c - b'0')) s d

digits_from-value : (fuel n : ℕ) → n ≤ fuel → value_from 0 (digits_from fuel n) ≡ n
unfolding digits_from
digits_from-value zero n h = omega (arith, h)
digits_from-value (suc fuel) n h = elim (Bool-cases (ltb n 10)) [
  | inl e ↦ rw (digits_from, e) (omega arith)
  | inr e ↦
      let ih = digits_from-value fuel (n / 10) (ground (arith, e, h)) in
      rw (digits_from, e)
        (value_from-snoc 0 (digits_from fuel (n / 10)) (b'0' + n % 10) ∙ ground (arith, ih))
]

-- The digits of a number stand for it.
pub value-digits_of : (n : ℕ) → value_from 0 (digits_of n) ≡ n
unfolding digits_of
value-digits_of n = digits_from-value n n (omega arith)

abbrev pow10 : ℕ → ℕ
pow10 zero = 1
pow10 (suc k) = 10 * pow10 k

digits_from-length : (k fuel n : ℕ) → n < pow10 (suc k) → length (digits_from fuel n) ≤ suc k
unfolding digits_from
digits_from-length k zero n h = omega arith
digits_from-length zero (suc fuel) n h =
    let e : ltb n 10 ≡ true = ground (arith, h) in rw (digits_from, e) (omega arith)
digits_from-length (suc k) (suc fuel) n h = elim (Bool-cases (ltb n 10)) [
  | inl e ↦ rw (digits_from, e) (omega arith)
  | inr e ↦
      let ih = digits_from-length k fuel (n / 10) (omega (arith, h)) in
      rw (digits_from, e)
        (omega (arith, ih, length-append {0} (digits_from fuel (n / 10)) ((b'0' + n % 10) ∷ [])))
]

digits_of-length : (n : ℕ) → n ≤ max_exact → length (digits_of n) ≤ 16
unfolding digits_of
digits_of-length n h = digits_from-length 15 n n (omega (arith, h))

-- Every character of a number.
abbrev pub is_digit : ℕ → Bool
is_digit c = leb b'0' c && leb c b'9'

abbrev pub IsDigits : Text → Type 0
IsDigits s = All (λ c. is_digit c ≡ true) s

pub All-append : (P : ℕ → Type 0) (s t : Text) → All P s → All P t → All P (s ++ t)
All-append P [] t p q = q
All-append P (c ∷ s) t (p, ps) q = (p, All-append P s t ps q)

digits_from-IsDigits : (fuel n : ℕ) → IsDigits (digits_from fuel n)
unfolding digits_from
digits_from-IsDigits zero n = (ground arith, tt)
digits_from-IsDigits (suc fuel) n = elim (Bool-cases (ltb n 10)) [
  | inl e ↦ rw (digits_from, e) (ground (arith, e), tt)
  | inr e ↦
      rw (digits_from, e)
        (All-append (λ c. is_digit c ≡ true) (digits_from fuel (n / 10)) ((b'0' + n % 10) ∷ [])
          (digits_from-IsDigits fuel (n / 10)) (ground arith, tt))
]

pub digits_of-IsDigits : (n : ℕ) → IsDigits (digits_of n)
unfolding digits_of
digits_of-IsDigits n = digits_from-IsDigits n n

pub length-zeros : (k : ℕ) → length (zeros k) ≡ k
length-zeros zero = refl
length-zeros (suc k) = omega (arith, length-zeros k)

Text-cases : (t : Text) → (t ≡ []) ⊎ ((d : ℕ) × (ds : Text) × (t ≡ d ∷ ds))
Text-cases [] = inl refl
Text-cases (d ∷ ds) = inr (d, ds, refl)

-- What is stripped is zeros.
pub strip_zeros-zeros : (s : Text) → (k : ℕ) × (strip_zeros s ++ zeros k ≡ s)
unfolding strip_zeros
strip_zeros-zeros [] = (0, refl)
strip_zeros-zeros (c ∷ s) =
    let (k, ih) = strip_zeros-zeros s in
    elim (Text-cases (strip_zeros s)) [
      | inr (d, ds, e) ↦
          (k, rw e (ap (λ (t : Text). c ∷ t) (ap (λ (t : Text). t ++ zeros k) (sym e) ∙ ih)))
      | inl e ↦
          let all : zeros k ≡ s = ap (λ (t : Text). t ++ zeros k) (sym e) ∙ ih in
          elim (Bool-cases (c == b'0')) [
            | inl z ↦ let q : c ≡ b'0' = ground (arith, z) in (suc k, rw (e, z) (cc (q, all)))
            | inr z ↦ (k, rw (e, z) (ap (λ (t : Text). c ∷ t) all))
          ]
    ]

digits_from-nonempty : (fuel n : ℕ) → 0 < length (digits_from fuel n)
unfolding digits_from
digits_from-nonempty zero n = omega arith
digits_from-nonempty (suc fuel) n = elim (Bool-cases (ltb n 10)) [
  | inl e ↦ rw (digits_from, e) (omega arith)
  | inr e ↦
      rw (digits_from, e)
        (omega (arith, length-append {0} (digits_from fuel (n / 10)) ((b'0' + n % 10) ∷ [])))
]

pub digits_of-nonempty : (n : ℕ) → 0 < length (digits_of n)
unfolding digits_of
digits_of-nonempty n = digits_from-nonempty n n

write_decimal-digits :
    (s : Text)
    → 0 < length s
    → length s ≤ 21
    → write_decimal (strip_zeros s) (pos (suc (length s - 1))) ≡ s
unfolding write_decimal
write_decimal-digits s p h =
    let (k, e) = strip_zeros-zeros s in
    let l : length (strip_zeros s) + k ≡ length s =
      omega (arith, ap length e, length-append {0} (strip_zeros s) (zeros k), length-zeros k) in
    let n : suc (length s - 1) ≡ length s = omega (arith, p) in
    let fits : (leb (length (strip_zeros s)) (length s) && leb (length s) 21) ≡ true =
      ground (arith, l, h) in
    let rest : length s - length (strip_zeros s) ≡ k = omega (arith, l) in rw (n, fits, rest) e

zero_int : (i : ℤ) → magnitude i ≡ 0 → i ≡ pos 0
zero_int (pos n) e = ap pos (omega (arith, e))
zero_int (negsuc n) e = absurd (omega (arith, e))

write_zero : write_int (pos 0) ≡ b'0' ∷ []
unfolding digits_of digits_from
write_zero = refl

-- An integer of at most 2^53 is written as its own decimal digits, with a sign if it is negative.
pub format_int-digits :
    (nearest : ℤ → Float × Bool) (i : ℤ)
    → magnitude i ≤ max_exact
    → format_int nearest i ≡ some (write_int i)
unfolding format_int float_of_int format_number
format_int-digits nearest i h =
    let le : leb (magnitude i) max_exact ≡ true = ground (arith, h) in
    elim (Bool-cases (magnitude i == 0)) [
      | inr z ↦
          let d =
            write_decimal-digits (digits_of (magnitude i)) (digits_of-nonempty (magnitude i))
              (omega (arith, digits_of-length (magnitude i) h)) in
          rw (le, z) (ap (λ (t : Text). some (sign (is_negative i) ++ t)) d)
      | inl z ↦
          let q = zero_int i (ground (arith, z)) in
          rw (le, z) (ap some (sym write_zero) ∙ ap (λ (j : ℤ). some (write_int j)) (sym q))
    ]
