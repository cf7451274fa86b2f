-- ===== src/Canonical/Number.antt =====
-- internal/canonical/number.go. A float64 stands as the decimal that `strconv.AppendFloat` prints
-- for it in the shortest form that reads back as the same number.
pub mod Digits
pub mod Chars
pub mod Denoted
pub mod Spelled
use nodary.Prelude.{
  ℕ, zero, suc, ◌+◌, ◌-◌, ◌/◌, ◌%◌, ◌^◌, Bool, true, false, ◌&&◌, ◌||◌, not, Option, none, some,
  List, [], ◌∷◌, ◌++◌, ltb, leb, ◌==◌, if◌then◌else◌, length, ℤ, pos, negsuc, pos_part, neg_part,
}
use nodary.Canonical.Text.{Text}

-- `finite negative digits exp10` is `d.ddd` times ten to the `exp10`, for the digits `dddd`.
pub data Float : Type 0 where
  not_finite : Float
  zero_float : Float
  finite : Bool → Text → ℤ → Float

abbrev pub take : ℕ → Text → Text
take zero s = []
take (suc n) [] = []
take (suc n) (c ∷ s) = c ∷ take n s

abbrev pub drop : ℕ → Text → Text
drop zero s = s
drop (suc n) [] = []
drop (suc n) (c ∷ s) = drop n s

abbrev pub zeros : ℕ → Text
zeros zero = []
zeros (suc n) = b'0' ∷ zeros n

-- `strconv.Itoa` of a natural number; the number is fuel enough.
unfoldable pub digits_from : ℕ → ℕ → Text
digits_from zero n = (b'0' + n % 10) ∷ []
digits_from (suc fuel) n = elim (ltb n 10) [
  | true ↦ (b'0' + n) ∷ []
  | false ↦ digits_from fuel (n / 10) ++ (b'0' + n % 10) ∷ []
]

unfoldable pub digits_of : ℕ → Text
digits_of n = digits_from n n

abbrev pub sign : Bool → Text
sign true = b'-' ∷ []
sign false = []

-- The exponent of the scientific form, with its sign always written.
unfoldable pub write_exponent : ℤ → Text
write_exponent (pos zero) = b'-' ∷ b'1' ∷ []
write_exponent (pos (suc m)) = b'+' ∷ digits_of m
write_exponent (negsuc j) = b'-' ∷ digits_of (j + 2)

unfoldable pub write_scientific : Text → ℤ → Text
write_scientific ds n =
    (if length ds == 1 then ds else take 1 ds ++ b'.' ∷ drop 1 ds) ++ b'e' ∷ write_exponent n

-- The four forms of ECMAScript's Number::toString, for a decimal point after `n` digits.
unfoldable pub write_decimal : Text → ℤ → Text
write_decimal ds (negsuc j) =
    if ltb j 5 then b'0' ∷ b'.' ∷ zeros (j + 1) ++ ds else write_scientific ds (negsuc j)
write_decimal ds (pos n) =
    if leb (length ds) n && leb n 21
    then ds ++ zeros (n - length ds)
    else if ltb 0 n && leb n 21
    then take n ds ++ b'.' ∷ drop n ds
    else if n == 0
    then b'0' ∷ b'.' ∷ ds
    else write_scientific ds (pos n)

abbrev pub one_more : ℤ → ℤ
one_more (pos n) = pos (suc n)
one_more (negsuc zero) = pos 0
one_more (negsuc (suc n)) = negsuc n

unfoldable pub format_number : Float → Option Text
format_number not_finite = none
format_number zero_float = some (b'0' ∷ [])
format_number (finite negative ds e) = some (sign negative ++ write_decimal ds (one_more e))

-- The conversion of an integer of at most 2^53 to a float64: its digits, without zeros at the end.
unfoldable pub strip_zeros : Text → Text
strip_zeros [] = []
strip_zeros (c ∷ s) =
    let rest = strip_zeros s in
    elim rest [ [] ↦ if c == b'0' then [] else c ∷ [] | d ∷ ds ↦ c ∷ d ∷ ds ]

abbrev pub magnitude : ℤ → ℕ
magnitude i = pos_part i + neg_part i

abbrev pub is_negative : ℤ → Bool
is_negative (pos n) = false
is_negative (negsuc n) = true

unfoldable pub float_of_int : ℤ → Float
float_of_int i =
    let ds = digits_of (magnitude i) in
    if magnitude i == 0
    then zero_float
    else finite (is_negative i) (strip_zeros ds) (pos (length ds - 1))

abbrev pub write_int : ℤ → Text
write_int i = sign (is_negative i) ++ digits_of (magnitude i)

unfoldable pub text_eq : Text → Text → Bool
text_eq [] [] = true
text_eq (c ∷ s) (d ∷ t) = (c == d) && text_eq s t
text_eq _ _ = false

abbrev pub max_exact : ℕ
max_exact = 2 ^ 53

-- `nearest i` is the nearest float64, of `math/big`, and whether it is exact.
module _ (nearest : ℤ → Float × Bool) where
  unfoldable pub format_big_int : ℤ → Option Text
  format_big_int i =
      let out = format_number (nearest i).0 in
      if (nearest i).1
      then out
      else elim out [ none ↦ none | some t ↦ if text_eq t (write_int i) then some t else none ]

  unfoldable pub format_int : ℤ → Option Text
  format_int i =
      if leb (magnitude i) max_exact then format_number (float_of_int i) else format_big_int i
