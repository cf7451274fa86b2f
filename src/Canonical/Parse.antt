-- ===== src/Canonical/Parse.antt =====
-- `parse` of internal/canonical/value.go over the tokens that a json.Decoder yields.
pub mod Sound
pub mod Documents
use nodary.Prelude.{
  ◌>>=◌, ℕ, zero, suc, Bool, true, false, ◌||◌, Option, none, some, List, [], ◌∷◌, length,
}
use nodary.Canonical.Text.{Text}
use nodary.Canonical.Number.{text_eq}
use nodary.Canonical.Encode.{
  Value, Items, Fields, null, bool, str, literal, arr, obj, nil, cons, end, field,
}

pub data Token : Type 0 where
  of_null : Token
  of_bool : Bool → Token
  of_string : Text → Token
  of_number : Text → Token
  open_array : Token
  close_array : Token
  open_object : Token
  close_object : Token

-- Whether a key stands in the map already.
unfoldable pub seen : Text → List Text → Bool
seen k [] = false
seen k (l ∷ ls) = text_eq k l || seen k ls

-- `More`, in an array.
abbrev pub closes_array : Token → Bool
closes_array Token.close_array = true
closes_array _ = false

-- `parseValue` and the loops of `parseToken`. Every call takes a token. A missing or misplaced token is
-- an error of the decoder.
unfoldable mutual
  pub parse_value : ℕ → List Token → Option (Value × List Token)
  parse_value zero ts = none
  parse_value (suc n) [] = none
  parse_value (suc n) (Token.of_null ∷ ts) = some (null, ts)
  parse_value (suc n) (Token.of_bool b ∷ ts) = some (bool b, ts)
  parse_value (suc n) (Token.of_string s ∷ ts) = some (str s, ts)
  parse_value (suc n) (Token.of_number t ∷ ts) = some (literal t, ts)
  parse_value (suc n) (Token.open_array ∷ ts) = do r ← parse_items n ts; some (arr r.0, r.1)
  parse_value (suc n) (Token.open_object ∷ ts) = do r ← parse_fields n [] ts; some (obj r.0, r.1)
  parse_value (suc n) (Token.close_array ∷ ts) = none
  parse_value (suc n) (Token.close_object ∷ ts) = none

  pub parse_items : ℕ → List Token → Option (Items × List Token)
  parse_items zero ts = none
  parse_items (suc n) [] = none
  parse_items (suc n) (t ∷ ts) = elim (closes_array t) [
    | true ↦ some (nil, ts)
    | false ↦ do v ← parse_value n (t ∷ ts); vs ← parse_items n v.1; some (cons v.0 vs.0, vs.1)
  ]

  -- The keys before are those of `ks`.
  pub parse_fields : ℕ → List Text → List Token → Option (Fields × List Token)
  parse_fields zero ks ts = none
  parse_fields (suc n) ks (Token.close_object ∷ ts) = some (end, ts)
  parse_fields (suc n) ks (Token.of_string k ∷ ts) = elim (seen k ks) [
    | true ↦ none
    | false ↦ do
      v ← parse_value n ts
      fs ← parse_fields n (k ∷ ks) v.1
      some (field k v.0 fs.0, fs.1)
  ]
  parse_fields (suc n) ks ts = none

-- One value, and nothing after it.
abbrev pub only : Value × List Token → Option Value
only (v, []) = some v
only (v, t ∷ ts) = none

unfoldable pub parse : List Token → Option Value
parse ts = parse_value (length ts) ts >>= only
