-- ===== src/Canonical/Text.antt =====
-- `writeString` of internal/canonical/string.go.
pub mod Read
use nodary.Prelude.{
  ℕ, suc, ◌+◌, ◌-◌, ◌/◌, ◌%◌, Bool, true, false, ◌&&◌, ◌||◌, not, Option, none, some, List, [], ◌∷◌,
  ◌++◌, ltb, leb, ◌==◌, if◌then◌else◌,
}

abbrev pub Text : Type 0
Text = List ℕ

abbrev pub quote : ℕ
quote = b'"'

abbrev pub backslash : ℕ
backslash = b'\\'

-- A Unicode scalar value: no surrogate, and not past the last plane.
unfoldable pub is_scalar : ℕ → Bool
is_scalar c = ltb c 0xD800 || (leb 0xE000 c && ltb c 0x110000)

-- `utf8.ValidString`.
unfoldable pub valid_string : Text → Bool
valid_string [] = true
valid_string (c ∷ s) = is_scalar c && valid_string s

-- `hexDigits`.
unfoldable pub hex_digit : ℕ → ℕ
hex_digit d = if ltb d 10 then b'0' + d else b'a' + (d - 10)

-- What one round of the loop writes.
unfoldable pub write_rune : ℕ → Text
write_rune r =
    if r == quote
    then backslash ∷ quote ∷ []
    else if r == backslash
    then backslash ∷ backslash ∷ []
    else if r == 8
    then backslash ∷ b'b' ∷ []
    else if r == 9
    then backslash ∷ b't' ∷ []
    else if r == 10
    then backslash ∷ b'n' ∷ []
    else if r == 12
    then backslash ∷ b'f' ∷ []
    else if r == 13
    then backslash ∷ b'r' ∷ []
    else if ltb r 0x20
    then backslash ∷ b'u' ∷ b'0' ∷ b'0' ∷ hex_digit (r / 16) ∷ hex_digit (r % 16) ∷ []
    else r ∷ []

unfoldable pub write_runes : Text → Text
write_runes [] = []
write_runes (r ∷ s) = write_rune r ++ write_runes s

unfoldable pub write_string : Text → Option Text
write_string s = if valid_string s then some (quote ∷ write_runes s ++ quote ∷ []) else none
