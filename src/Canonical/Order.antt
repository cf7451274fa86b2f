-- ===== src/Canonical/Order.antt =====
-- `lessUTF16` of internal/canonical/string.go, and the sort by it.
pub mod Sorted
use nodary.Prelude.{
  ℕ, ◌+◌, ◌-◌, ◌/◌, ◌%◌, Bool, true, false, List, [], ◌∷◌, ◌++◌, ltb, ◌==◌, if◌then◌else◌,
}
use nodary.Canonical.Text.{Text}

-- `utf16.Encode` of one code point: above the basic plane, a surrogate pair.
unfoldable pub units_of : ℕ → List ℕ
units_of r =
    if ltb r 0x10000
    then r ∷ []
    else (0xD800 + (r - 0x10000) / 0x400) ∷ (0xDC00 + (r - 0x10000) % 0x400) ∷ []

unfoldable pub utf16 : Text → List ℕ
utf16 [] = []
utf16 (r ∷ s) = units_of r ++ utf16 s

-- The loop over the units of both.
unfoldable pub less_units : List ℕ → List ℕ → Bool
less_units [] [] = false
less_units [] (b ∷ bs) = true
less_units (a ∷ us) [] = false
less_units (a ∷ us) (b ∷ bs) = let rest = less_units us bs in if a == b then rest else ltb a b

unfoldable pub less_utf16 : Text → Text → Bool
less_utf16 a b = less_units (utf16 a) (utf16 b)

-- The members of an object, each with the text of its value, by key.
unfoldable pub insert : Text × Text → List (Text × Text) → List (Text × Text)
insert m [] = m ∷ []
insert m (x ∷ xs) = let rest = insert m xs in if less_utf16 x.0 m.0 then x ∷ rest else m ∷ x ∷ xs

unfoldable pub sort : List (Text × Text) → List (Text × Text)
sort [] = []
sort (m ∷ ms) = insert m (sort ms)
