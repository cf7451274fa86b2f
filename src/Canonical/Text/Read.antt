-- ===== src/Canonical/Text/Read.antt =====
-- A reader of what `writeString` of internal/canonical/string.go writes.
use nodary.Prelude.{
  ℕ, zero, suc, ◌+◌, ◌-◌, ◌*◌, ◌/◌, ◌%◌, ◌≤◌, ◌<◌, ◌≡◌, refl, sym, ap, ◌∙◌, true, false, Option,
  none, some, [], ◌∷◌, ◌++◌, ltb, ◌==◌, if◌then◌else◌, length, inl, inr, Bool-cases, length-append,
  arith,
}
use mathlib.Core.List.{append_assoc}
use nodary.Canonical.Text.{
  Text, quote, backslash, valid_string, hex_digit, write_rune, write_runes, write_string,
}

abbrev add : ℕ → Option (Text × Text) → Option (Text × Text)
add c none = none
add c (some (s, rest)) = some (c ∷ s, rest)

hex_value : ℕ → ℕ
hex_value c = if ltb c b'a' then c - b'0' else 10 + (c - b'a')

-- The character that a short escape stands for.
unescape : ℕ → ℕ
unescape c =
    if c == b'b'
    then 8
    else if c == b't'
    then 9
    else if c == b'n'
    then 10
    else if c == b'f'
    then 12
    else if c == b'r'
    then 13
    else c

read_hex : (Text → Option (Text × Text)) → Text → Option (Text × Text)
read_hex k (a ∷ b ∷ c ∷ d ∷ s) =
    add (((hex_value a * 16 + hex_value b) * 16 + hex_value c) * 16 + hex_value d) (k s)
read_hex k _ = none

read_escape : (Text → Option (Text × Text)) → Text → Option (Text × Text)
read_escape k [] = none
read_escape k (c ∷ s) = if c == b'u' then read_hex k s else add (unescape c) (k s)

-- A string up to its closing quote, and what follows. A character takes at most one unit of fuel.
pub read_text : ℕ → Text → Option (Text × Text)
unfolding read_escape read_hex unescape hex_value
read_text zero s = none
read_text (suc fuel) [] = none
read_text (suc fuel) (c ∷ s) = elim (c == quote) [
  | true ↦ some ([], s)
  | false ↦ elim (c == backslash) [
    | true ↦ (read_escape (read_text fuel) s)
    | false ↦ (add c (read_text fuel s))
  ]
]

hex_value-hex_digit : (d : ℕ) → d < 16 → hex_value (hex_digit d) ≡ d
unfolding hex_value hex_digit
hex_value-hex_digit d h = ground arith

read_text-write_rune :
    (fuel r : ℕ) (rest : Text)
    → read_text (suc fuel) (write_rune r ++ rest) ≡ add r (read_text fuel rest)
unfolding read_text write_rune read_escape read_hex unescape
read_text-write_rune fuel r rest =
    ground (arith, hex_value-hex_digit (r / 16), hex_value-hex_digit (r % 16))

read_text-quote : (fuel : ℕ) (rest : Text) → read_text (suc fuel) (quote ∷ rest) ≡ some ([], rest)
unfolding read_text
read_text-quote fuel rest = refl

read_text-write_runes :
    (s : Text) (fuel : ℕ) (rest : Text)
    → length s < fuel
    → read_text fuel (write_runes s ++ (quote ∷ rest)) ≡ some (s, rest)
unfolding write_runes
read_text-write_runes s zero rest h = absurd (omega (arith, h))
read_text-write_runes [] (suc fuel) rest h = read_text-quote fuel rest
read_text-write_runes (r ∷ s) (suc fuel) rest h = rw append_assoc (
    read_text-write_rune fuel r (write_runes s ++ (quote ∷ rest))
    ∙ ap (add r) (read_text-write_runes s fuel rest (omega (arith, h))))

length-write_rune : (r : ℕ) → 0 < length (write_rune r)
unfolding write_rune
length-write_rune r = ground arith

length-write_runes : (s : Text) → length s ≤ length (write_runes s)
unfolding write_runes
length-write_runes [] = omega arith
length-write_runes (r ∷ s) = omega (
  arith,
  length-write_runes s,
  length-write_rune r,
  length-append {0} (write_rune r) (write_runes s),
)

-- What `write_string` writes, read back with whatever follows.
pub read_text-write_string :
    (s t rest : Text) (fuel : ℕ)
    → write_string s ≡ some t
    → length t ≤ suc fuel
    → (u : Text) × (t ≡ quote ∷ u) × (read_text fuel (u ++ rest) ≡ some (s, rest))
unfolding write_string
read_text-write_string s t rest fuel e h = elim (Bool-cases (valid_string s)) [
  | inr v ↦ absurd (cc (rw v at e))
  | inl v ↦
      let q : quote ∷ write_runes s ++ quote ∷ [] ≡ t = cc (rw v at e) in
      (
        write_runes s ++ quote ∷ [],
        sym q,
        rw append_assoc (read_text-write_runes s fuel rest (short q)),
      )
]
  where
    short : quote ∷ write_runes s ++ quote ∷ [] ≡ t → length s < fuel
    short q = omega (
      arith,
      h,
      length-write_runes s,
      ap length q,
      length-append {0} (write_runes s) (quote ∷ []),
    )
