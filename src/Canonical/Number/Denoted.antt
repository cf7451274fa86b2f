-- ===== src/Canonical/Number/Denoted.antt =====
-- What number the text that `formatNumber` of internal/canonical/number.go writes stands for.
pub mod Reading
use nodary.Prelude.{ℕ, ◌+◌, ◌*◌, ◌^◌, ◌≡◌, ◌∷◌, if◌then◌else◌, length, ℤ, pos, pos_part, neg_part}
use nodary.Canonical.Text.{Text}
use nodary.Canonical.Number.{Float, not_finite, zero_float, finite}
use nodary.Canonical.Number.Digits.{value_from}
use nodary.Canonical.Number.Denoted.Reading.{read_decimal}

-- The digits, with the point after the first and an exponent, are the same number as what was read: its
-- digits are those with some zeros after them, and its exponent is as much less.
abbrev pub SameNumber : Text → ℤ → ℕ × ℕ × ℤ → Type 0
SameNumber ds e (m, k, x) =
    (z : ℕ) × (m ≡ value_from 0 ds * 10 ^ z)
    × (pos_part e + k + neg_part x + 1 ≡ length ds + z + pos_part x + neg_part e)

-- The same, by the place of the point instead of the exponent.
abbrev SamePlace : Text → ℤ → ℕ × ℕ × ℤ → Type 0
SamePlace ds n (m, k, x) =
    (z : ℕ) × (m ≡ value_from 0 ds * 10 ^ z)
    × (pos_part n + k + neg_part x ≡ length ds + z + pos_part x + neg_part n)

-- The number that a float64 is, and what a text is read as after its sign.
abbrev pub Denotes : Text → Float → Type 0
Denotes t not_finite = ⊥
Denotes t zero_float = read_decimal t ≡ (0, 0, pos 0)
Denotes t (finite negative ds e) =
    (u : Text) × (t ≡ (if negative then b'-' ∷ u else u)) × SameNumber ds e (read_decimal u)
