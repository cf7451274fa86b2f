-- ===== src/Canonical/Number/Denoted/Reading.antt =====
-- A reader of decimals, and what it reads of the pieces that internal/canonical/number.go writes.
use nodary.Prelude.{
  ℕ, zero, suc, ◌+◌, ◌-◌, ◌*◌, ◌^◌, ◌≡◌, refl, sym, ap, ◌∙◌, subst, true, false, [], ◌∷◌, ◌++◌,
  ◌==◌, ◌⊎◌, inl, inr, arith, length, ℤ, pos, negsuc,
}
use nodary.Canonical.Text.{Text}
use nodary.Canonical.Number.{take, drop, zeros, digits_of, write_exponent}
use nodary.Canonical.Number.Digits.{
  is_digit, IsDigits, value_from, value-digits_of, digits_of-IsDigits,
}
use nodary.Canonical.Number.Chars.{}
use mathlib.Core.List.{append-nil}
use native.Mathlib.Numerals.{unary_clauses}
use native.Mathlib.Nat.{mul_assoc, mul_comm}

-- The digits at the front of a text: the number that they stand for, how many they are, and what is after.
unfoldable pub read_places : ℕ → ℕ → Text → ℕ × ℕ × Text
read_places acc k [] = (acc, k, [])
read_places acc k (c ∷ s) = elim (is_digit c) [
  | true ↦ read_places (acc * 10 + (c - b'0')) (suc k) s
  | false ↦ (acc, k, c ∷ s)
]

abbrev negated : ℕ → ℤ
negated zero = pos 0
negated (suc n) = negsuc n

-- What stands after an `e`, with its sign.
unfoldable pub read_exponent : Text → ℤ
read_exponent [] = pos 0
read_exponent (c ∷ []) = pos 0
read_exponent (c ∷ d ∷ s) = elim (d == b'-') [
  | true ↦ negated (read_places 0 0 s).0
  | false ↦ pos (read_places 0 0 s).0
]

unfoldable pub read_point : ℕ → Text → ℕ × ℕ × ℤ
read_point m [] = (m, 0, pos 0)
read_point m (c ∷ s) = elim (c == b'.') [
  | true ↦ let r = read_places m 0 s in (r.0, r.1, read_exponent r.2)
  | false ↦ (m, 0, read_exponent (c ∷ s))
]

-- An unsigned decimal: all its digits as one number, how many stand after the point, and its exponent.
unfoldable pub read_decimal : Text → ℕ × ℕ × ℤ
read_decimal s = let r = read_places 0 0 s in read_point r.0 r.2

-- A text that goes on no digits.
abbrev pub Stops : Text → Type 0
Stops [] = Unit
Stops (c ∷ s) = is_digit c ≡ false

read_places-digits :
    (acc k : ℕ) (ds rest : Text)
    → IsDigits ds
    → Stops rest
    → read_places acc k (ds ++ rest) ≡ (value_from acc ds, k + length ds, rest)
unfolding read_places
read_places-digits acc k [] [] h s = ap (λ n. (acc, n, [])) {x = k} {y = k + 0} (omega arith)
read_places-digits acc k [] (c ∷ rest) h s =
    rw (read_places, s) (ap (λ n. (acc, n, c ∷ rest)) {x = k} {y = k + 0} (omega arith))
read_places-digits acc k (c ∷ ds) rest (e, h) s =
    rw (read_places, e)
      (read_places-digits (acc * 10 + (c - b'0')) (suc k) ds rest h s
        ∙ ap (λ n. (value_from (acc * 10 + (c - b'0')) ds, n, rest)) {x = suc k + length ds}
            {y = k + suc (length ds)} (omega arith))

pub value_from-append :
    (acc : ℕ) (s t : Text) → value_from acc (s ++ t) ≡ value_from (value_from acc s) t
value_from-append acc [] t = refl
value_from-append acc (c ∷ s) t = value_from-append (acc * 10 + (c - b'0')) s t

pub value_from-zeros : (acc n : ℕ) → value_from acc (zeros n) ≡ acc * 10 ^ n
value_from-zeros acc zero = omega arith
value_from-zeros acc (suc n) = value_from-zeros (acc * 10 + (b'0' - b'0')) n ∙ by_ten
  where
    by_ten : (acc * 10 + 0) * 10 ^ n ≡ acc * 10 ^ suc n
    by_ten =
        simp unary_clauses (mul_assoc acc 10 (10 ^ n) ∙ ap (λ x. acc * x) (mul_comm 10 (10 ^ n)))

pub value_from-no_zeros : (n : ℕ) → value_from 0 (zeros n) ≡ 0
value_from-no_zeros zero = refl
value_from-no_zeros (suc n) = value_from-no_zeros n

pub take-drop : (n : ℕ) (s : Text) → take n s ++ drop n s ≡ s
take-drop zero s = refl
take-drop (suc n) [] = refl
take-drop (suc n) (c ∷ s) = ap (λ (t : Text). c ∷ t) (take-drop n s)

pub length-drop : (n : ℕ) (s : Text) → length (drop n s) ≡ length s - n
length-drop zero s = omega arith
length-drop (suc n) [] = omega arith
length-drop (suc n) (c ∷ s) = ground (arith, length-drop n s)

pub take-IsDigits : (n : ℕ) (s : Text) → IsDigits s → IsDigits (take n s)
take-IsDigits zero s h = tt
take-IsDigits (suc n) [] h = tt
take-IsDigits (suc n) (c ∷ s) (e, h) = (e, take-IsDigits n s h)

pub drop-IsDigits : (n : ℕ) (s : Text) → IsDigits s → IsDigits (drop n s)
drop-IsDigits zero s h = h
drop-IsDigits (suc n) [] h = tt
drop-IsDigits (suc n) (c ∷ s) (e, h) = drop-IsDigits n s h

pub zeros-IsDigits : (n : ℕ) → IsDigits (zeros n)
zeros-IsDigits zero = tt
zeros-IsDigits (suc n) = (refl, zeros-IsDigits n)

-- One less.
abbrev pub less_one : ℤ → ℤ
less_one (pos zero) = negsuc 0
less_one (pos (suc n)) = pos n
less_one (negsuc n) = negsuc (suc n)

-- A text of digits, a point and digits, or of digits alone, before what stops them.
pub read_pointed :
    (a b rest : Text)
    → IsDigits a
    → IsDigits b
    → Stops rest
    → read_decimal (a ++ b'.' ∷ (b ++ rest)) ≡ (value_from 0 (a ++ b), length b, read_exponent rest)
unfolding read_decimal read_point
read_pointed a b rest h k s =
    let front = read_places-digits 0 0 a (b'.' ∷ (b ++ rest)) h refl in
    let back = read_places-digits (value_from 0 a) 0 b rest k s in
    ap (λ (r : ℕ × ℕ × Text). read_point r.0 r.2) front
    ∙ ap (λ (r : ℕ × ℕ × Text). (r.0, r.1, read_exponent r.2)) back
    ∙ ap (λ n. (value_from (value_from 0 a) b, n, read_exponent rest)) {x = 0 + length b}
        {y = length b} (omega arith)
    ∙ ap (λ n. (n, length b, read_exponent rest)) (sym (value_from-append 0 a b))

pub read_plain :
    (a rest : Text)
    → IsDigits a
    → (rest ≡ []) ⊎ ((e : Text) × (rest ≡ b'e' ∷ e))
    → read_decimal (a ++ rest) ≡ (value_from 0 a, 0, read_exponent rest)
unfolding read_decimal read_point read_exponent
read_plain a rest h (inl e) =
    let front = read_places-digits 0 0 a rest h (subst Stops {x = []} {y = rest} (sym e) tt) in
    rw (front, e) refl
read_plain a rest h (inr (x, e)) =
    let front =
      read_places-digits 0 0 a rest h (subst Stops {x = b'e' ∷ x} {y = rest} (sym e) refl) in
    rw (front, e) refl

digits_alone : (n : ℕ) → (read_places 0 0 (digits_of n)).0 ≡ n
digits_alone n =
    let front = read_places-digits 0 0 (digits_of n) [] (digits_of-IsDigits n) tt in
    ap (λ (s : Text). (read_places 0 0 s).0) (sym (append-nil (digits_of n)))
    ∙ ap (λ (r : ℕ × ℕ × Text). r.0) front
    ∙ value-digits_of n

pub read_exponent-write : (n : ℤ) → read_exponent (b'e' ∷ write_exponent n) ≡ less_one n
unfolding read_exponent write_exponent read_places
read_exponent-write (pos zero) = refl
read_exponent-write (pos (suc m)) = ap pos (digits_alone m)
read_exponent-write (negsuc j) =
    ap negated (digits_alone (j + 2)) ∙ ap negated {x = j + 2} {y = suc (suc j)} (omega arith)
