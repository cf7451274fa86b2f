-- ===== src/Canonical/Number/Chars.antt =====
-- The characters of what `formatNumber` of internal/canonical/number.go writes.
use nodary.Prelude.{
  ℕ, zero, suc, ◌+◌, ◌-◌, ◌<◌, ◌≡◌, refl, ◌∙◌, subst, Bool, true, false, ◌&&◌, ◌||◌, Option, none,
  some, [], ◌∷◌, ◌++◌, ltb, leb, ◌==◌, ◌⊎◌, inl, inr, All, Bool-cases, arith, length, length-append,
  ℤ, pos, negsuc,
}
use nodary.Canonical.Text.{Text}
use nodary.Canonical.Number.{
  Float, not_finite, zero_float, finite, take, drop, zeros, digits_of, sign, write_exponent,
  write_scientific, write_decimal, one_more, format_number, magnitude, is_negative, text_eq,
  write_int, format_big_int, format_int, max_exact,
}
use nodary.Canonical.Number.Digits.{
  is_digit, IsDigits, All-append, digits_of-IsDigits, digits_of-nonempty, format_int-digits,
}

-- A character of a JSON number, of those this writer uses.
abbrev pub is_numeral : ℕ → Bool
is_numeral c = is_digit c || ((c == b'-') || ((c == b'+') || ((c == b'.') || (c == b'e'))))

abbrev pub AreNumeral : Text → Type 0
AreNumeral s = All (λ c. is_numeral c ≡ true) s

-- The digits of a float64 are digits, at least one.
abbrev pub IsFloat : Float → Type 0
IsFloat not_finite = Unit
IsFloat zero_float = Unit
IsFloat (finite negative ds e) = IsDigits ds × (0 < length ds)

AreNumeral-append : (s t : Text) → AreNumeral s → AreNumeral t → AreNumeral (s ++ t)
AreNumeral-append s t = All-append (λ c. is_numeral c ≡ true) s t

IsDigits-AreNumeral : (s : Text) → IsDigits s → AreNumeral s
IsDigits-AreNumeral [] h = tt
IsDigits-AreNumeral (c ∷ s) (e, h) = (ground (arith, e), IsDigits-AreNumeral s h)

take-AreNumeral : (n : ℕ) (s : Text) → AreNumeral s → AreNumeral (take n s)
take-AreNumeral zero s h = tt
take-AreNumeral (suc n) [] h = tt
take-AreNumeral (suc n) (c ∷ s) (e, h) = (e, take-AreNumeral n s h)

drop-AreNumeral : (n : ℕ) (s : Text) → AreNumeral s → AreNumeral (drop n s)
drop-AreNumeral zero s h = h
drop-AreNumeral (suc n) [] h = tt
drop-AreNumeral (suc n) (c ∷ s) (e, h) = drop-AreNumeral n s h

zeros-AreNumeral : (n : ℕ) → AreNumeral (zeros n)
zeros-AreNumeral zero = tt
zeros-AreNumeral (suc n) = (refl, zeros-AreNumeral n)

write_exponent-AreNumeral : (e : ℤ) → AreNumeral (write_exponent e)
unfolding write_exponent
write_exponent-AreNumeral (pos zero) = (refl, (refl, tt))
write_exponent-AreNumeral (pos (suc m)) =
    (refl, IsDigits-AreNumeral (digits_of m) (digits_of-IsDigits m))
write_exponent-AreNumeral (negsuc j) =
    (refl, IsDigits-AreNumeral (digits_of (j + 2)) (digits_of-IsDigits (j + 2)))

write_scientific-AreNumeral : (s : Text) (e : ℤ) → AreNumeral s → AreNumeral (write_scientific s e)
unfolding write_scientific
write_scientific-AreNumeral s e h = elim (Bool-cases (length s == 1)) [
  | inl q ↦
      rw q (AreNumeral-append s (b'e' ∷ write_exponent e) h (refl, write_exponent-AreNumeral e))
  | inr q ↦ rw q (
      AreNumeral-append (take 1 s ++ b'.' ∷ drop 1 s) (b'e' ∷ write_exponent e)
        (AreNumeral-append (take 1 s) (b'.' ∷ drop 1 s) (take-AreNumeral 1 s h)
          (refl, drop-AreNumeral 1 s h))
        (refl, write_exponent-AreNumeral e))
]

write_decimal-AreNumeral : (s : Text) (e : ℤ) → AreNumeral s → AreNumeral (write_decimal s e)
unfolding write_decimal
write_decimal-AreNumeral s (negsuc j) h = elim (Bool-cases (ltb j 5)) [
  | inl q ↦ rw q (refl, (refl, AreNumeral-append (zeros (j + 1)) s (zeros-AreNumeral (j + 1)) h))
  | inr q ↦ rw q (write_scientific-AreNumeral s (negsuc j) h)
]
write_decimal-AreNumeral s (pos n) h = elim (Bool-cases (leb (length s) n && leb n 21)) [
  | inl q ↦ rw q (AreNumeral-append s (zeros (n - length s)) h (zeros-AreNumeral (n - length s)))
  | inr q ↦ elim (Bool-cases (ltb 0 n && leb n 21)) [
    | inl k ↦
        rw (q, k)
          (AreNumeral-append (take n s) (b'.' ∷ drop n s) (take-AreNumeral n s h)
            (refl, drop-AreNumeral n s h))
    | inr k ↦ elim (Bool-cases (n == 0)) [
      | inl z ↦ rw (q, k, z) (refl, (refl, h))
      | inr z ↦ rw (q, k, z) (write_scientific-AreNumeral s (pos n) h)
    ]
  ]
]

-- A number takes at least one character.
long : (s t : Text) → 0 < length s → 0 < length (s ++ t)
long [] t h = absurd (omega (arith, h))
long (c ∷ s) t h = omega arith

write_scientific-nonempty : (s : Text) (e : ℤ) → 0 < length s → 0 < length (write_scientific s e)
unfolding write_scientific
write_scientific-nonempty s e h = elim (Bool-cases (length s == 1)) [
  | inl q ↦ rw q (long s (b'e' ∷ write_exponent e) h)
  | inr q ↦
      rw q
        (omega (arith, length-append {0} (take 1 s ++ b'.' ∷ drop 1 s) (b'e' ∷ write_exponent e)))
]

write_decimal-nonempty : (s : Text) (e : ℤ) → 0 < length s → 0 < length (write_decimal s e)
unfolding write_decimal
write_decimal-nonempty s (negsuc j) h = elim (Bool-cases (ltb j 5)) [
  | inl q ↦ rw q (omega arith)
  | inr q ↦ rw q (write_scientific-nonempty s (negsuc j) h)
]
write_decimal-nonempty s (pos n) h = elim (Bool-cases (leb (length s) n && leb n 21)) [
  | inl q ↦ rw q (long s (zeros (n - length s)) h)
  | inr q ↦ elim (Bool-cases (ltb 0 n && leb n 21)) [
    | inl k ↦ rw (q, k) (omega (arith, length-append {0} (take n s) (b'.' ∷ drop n s)))
    | inr k ↦ elim (Bool-cases (n == 0)) [
      | inl z ↦ rw (q, k, z) (omega arith)
      | inr z ↦ rw (q, k, z) (write_scientific-nonempty s (pos n) h)
    ]
  ]
]

sign-AreNumeral : (b : Bool) → AreNumeral (sign b)
sign-AreNumeral true = (refl, tt)
sign-AreNumeral false = tt

sign-nonempty : (b : Bool) (t : Text) → 0 < length t → 0 < length (sign b ++ t)
sign-nonempty true t h = omega arith
sign-nonempty false t h = h

-- The text of a number: characters of a number, at least one.
abbrev pub IsNumeral : Text → Type 0
IsNumeral t = AreNumeral t × (0 < length t)

-- What is written for a float64 is the text of a number.
pub format_number-IsNumeral :
    (f : Float) (t : Text) → IsFloat f → format_number f ≡ some t → IsNumeral t
unfolding format_number
format_number-IsNumeral not_finite t h e = absurd (cc e)
format_number-IsNumeral zero_float t h e =
    subst (λ (u : Text). IsNumeral u) {x = b'0' ∷ []} {y = t} (cc e) ((refl, tt), omega arith)
format_number-IsNumeral (finite b ds e) t (h, p) q =
    subst (λ (u : Text). IsNumeral u) {x = sign b ++ write_decimal ds (one_more e)} {y = t} (cc q)
      (
        AreNumeral-append (sign b) (write_decimal ds (one_more e)) (sign-AreNumeral b)
            (write_decimal-AreNumeral ds (one_more e) (IsDigits-AreNumeral ds h)),
        sign-nonempty b (write_decimal ds (one_more e)) (write_decimal-nonempty ds (one_more e) p),
      )

write_int-IsNumeral : (i : ℤ) → IsNumeral (write_int i)
write_int-IsNumeral i = (
  AreNumeral-append (sign (is_negative i)) (digits_of (magnitude i))
      (sign-AreNumeral (is_negative i))
      (IsDigits-AreNumeral (digits_of (magnitude i)) (digits_of-IsDigits (magnitude i))),
  sign-nonempty (is_negative i) (digits_of (magnitude i)) (digits_of-nonempty (magnitude i)),
)

Option-cases : (o : Option Text) → (o ≡ none) ⊎ ((t : Text) × (o ≡ some t))
Option-cases none = inl refl
Option-cases (some t) = inr (t, refl)

-- What is written for a large integer is what is written for its nearest float64.
pub format_big_int-number :
    (nearest : ℤ → Float × Bool) (i : ℤ) (t : Text)
    → format_big_int nearest i ≡ some t
    → format_number (nearest i).0 ≡ some t
unfolding format_big_int
format_big_int-number nearest i t e = elim (Bool-cases (nearest i).1) [
  | inl x ↦ rw x at e
  | inr x ↦ elim (Option-cases (format_number (nearest i).0)) [
    | inl n ↦ absurd (cc (rw (x, n) at e))
    | inr (u, n) ↦ elim (Bool-cases (text_eq u (write_int i))) [
      | inl y ↦ n ∙ (rw (x, n, y) at e)
      | inr y ↦ absurd (cc (rw (x, n, y) at e))
    ]
  ]
]

large :
    (nearest : ℤ → Float × Bool) (i : ℤ) (t : Text)
    → leb (magnitude i) max_exact ≡ false
    → format_int nearest i ≡ some t
    → format_big_int nearest i ≡ some t
unfolding format_int
large nearest i t x e = rw x at e

-- What is written for an integer is the text of a number.
pub format_int-IsNumeral :
    (nearest : ℤ → Float × Bool) (i : ℤ) (t : Text)
    → IsFloat (nearest i).0
    → format_int nearest i ≡ some t
    → IsNumeral t
format_int-IsNumeral nearest i t h e = elim (Bool-cases (leb (magnitude i) max_exact)) [
  | inl x ↦
      let q = format_int-digits nearest i (ground (arith, x)) in
      subst (λ (u : Text). IsNumeral u) {x = write_int i} {y = t} (cc (q, e))
        (write_int-IsNumeral i)
  | inr x ↦
      format_number-IsNumeral (nearest i).0 t h
        (format_big_int-number nearest i t (large nearest i t x e))
]
