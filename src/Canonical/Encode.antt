-- ===== src/Canonical/Encode.antt =====
-- `encodeValue` of internal/canonical/canonical.go. The keys of a map are distinct. The values of
-- an object are encoded before its keys are sorted, and not after: the text is the same.
pub mod Read
pub mod Normal
pub mod Texts
pub mod Plain
pub mod Members
pub mod RoundTrip
use nodary.Prelude.{
  ◌>>=◌, ℕ, Bool, true, false, ◌||◌, ◌==◌, Option, none, some, List, [], ◌∷◌, ◌++◌, if◌then◌else◌,
  ℤ,
}
use nodary.Canonical.Text.{Text, write_string}
use nodary.Canonical.Number.{Float, format_number, format_big_int, format_int}
use nodary.Canonical.Order.{sort}

-- The intermediate representation. An int64 and a uint64 are one constructor; `literal` is a
-- json.Number.
mutual
  pub data Value : Type 0 where
    null : Value
    bool : Bool → Value
    str : Text → Value
    int : ℤ → Value
    float : Float → Value
    literal : Text → Value
    arr : Items → Value
    obj : Fields → Value

  pub data Items : Type 0 where
    nil : Items
    cons : Value → Items → Items

  pub data Fields : Type 0 where
    end : Fields
    field : Text → Value → Fields → Fields

-- A comma before all but the first.
abbrev pub comma_after : Bool → Text
comma_after true = []
comma_after false = b',' ∷ []

unfoldable pub join : Bool → List (Text × Text) → Option Text
join first [] = some []
join first ((k, t) ∷ ms) = do
  name ← write_string k
  rest ← join false ms
  some (comma_after first ++ (name ++ (b':' ∷ (t ++ rest))))

-- What `strconv` and `math/big` do: the nearest float64 of an integer, with whether it is exact, and
-- the readings of a literal as an integer and as a float64.
pub record Numerals : Type 0 where
  pub nearest : ℤ → Float × Bool
  pub parse_int : Text → Option ℤ
  pub parse_float : Text → Option Float

-- `strings.ContainsAny(s, ".eE")`.
unfoldable pub has_mark : Text → Bool
has_mark [] = false
has_mark (c ∷ s) = ((c == b'.') || ((c == b'e') || (c == b'E'))) || has_mark s

unfoldable pub format_json_number : Numerals → Text → Option Text
format_json_number m s =
    if has_mark s
    then m.parse_float s >>= format_number
    else m.parse_int s >>= format_big_int m.nearest

module _ (m : Numerals) where
  unfoldable mutual
    pub encode_value : Value → Option Text
    encode_value null = some (b'n' ∷ b'u' ∷ b'l' ∷ b'l' ∷ [])
    encode_value (bool true) = some (b't' ∷ b'r' ∷ b'u' ∷ b'e' ∷ [])
    encode_value (bool false) = some (b'f' ∷ b'a' ∷ b'l' ∷ b's' ∷ b'e' ∷ [])
    encode_value (str s) = write_string s
    encode_value (int i) = format_int m.nearest i
    encode_value (float f) = format_number f
    encode_value (literal t) = format_json_number m t
    encode_value (arr xs) = do t ← encode_items true xs; some (b'[' ∷ (t ++ b']' ∷ []))
    encode_value (obj fs) = do
      ms ← encode_fields fs
      t ← join true (sort ms)
      some (b'{' ∷ (t ++ b'}' ∷ []))

    pub encode_items : Bool → Items → Option Text
    encode_items first nil = some []
    encode_items first (cons v vs) = do
      t ← encode_value v
      rest ← encode_items false vs
      some (comma_after first ++ (t ++ rest))

    pub encode_fields : Fields → Option (List (Text × Text))
    encode_fields end = some []
    encode_fields (field k v fs) = do t ← encode_value v; ms ← encode_fields fs; some ((k, t) ∷ ms)
