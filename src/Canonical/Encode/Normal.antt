-- ===== src/Canonical/Encode/Normal.antt =====
-- The value that a canonical text stands for: `parse` of internal/canonical/value.go yields numbers
-- as the literals they are written as.
use nodary.Prelude.{
  ◌>>=◌, bind-some, ◌≡◌, subst, Bool, Option, none, some, if◌then◌else◌, ℤ, inl, inr, Bool-cases,
}
use nodary.Canonical.Text.{Text}
use nodary.Canonical.Number.{Float, format_number, format_big_int, format_int}
use nodary.Canonical.Number.Chars.{
  IsFloat, IsNumeral, format_number-IsNumeral, format_big_int-number,
}
use nodary.Canonical.Order.{less_utf16}
use nodary.Canonical.Encode.{
  Value, Items, Fields, null, bool, str, int, float, literal, arr, obj, nil, cons, end, field,
  Numerals, has_mark, format_json_number,
}

abbrev pub number : Option Text → Value
number none = null
number (some t) = literal t

-- `Order.insert` and `Order.sort`, on the members themselves.
unfoldable pub insert_field : Text → Value → Fields → Fields
insert_field k v end = field k v end
insert_field k v (field l w fs) =
    let rest = insert_field k v fs in
    if less_utf16 l k then field l w rest else field k v (field l w fs)

unfoldable pub sort_fields : Fields → Fields
sort_fields end = end
sort_fields (field k v fs) = insert_field k v (sort_fields fs)

module _ (m : Numerals) where
  unfoldable mutual
    pub normal : Value → Value
    normal null = null
    normal (bool b) = bool b
    normal (str s) = str s
    normal (int i) = number (format_int m.nearest i)
    normal (float f) = number (format_number f)
    normal (literal t) = number (format_json_number m t)
    normal (arr xs) = arr (normal_items xs)
    normal (obj fs) = obj (sort_fields (normal_fields fs))

    pub normal_items : Items → Items
    normal_items nil = nil
    normal_items (cons v vs) = cons (normal v) (normal_items vs)

    pub normal_fields : Fields → Fields
    normal_fields end = end
    normal_fields (field k v fs) = field k (normal v) (normal_fields fs)

-- Every float64 in a value has digits.
unfoldable mutual
  pub IsValue : Value → Type 0
  IsValue (float f) = IsFloat f
  IsValue (arr xs) = AreItems xs
  IsValue (obj fs) = AreFields fs
  IsValue _ = Unit

  pub AreItems : Items → Type 0
  AreItems nil = Unit
  AreItems (cons v vs) = IsValue v × AreItems vs

  pub AreFields : Fields → Type 0
  AreFields end = Unit
  AreFields (field k v fs) = IsValue v × AreFields fs

-- What `strconv` and `math/big` answer has digits.
pub record HaveDigits (m : Numerals) : Type 0 where
  pub of_nearest : (i : ℤ) → IsFloat (m.nearest i).0
  pub of_parsed : (t : Text) (f : Float) → m.parse_float t ≡ some f → IsFloat f

pub format_json_number-IsNumeral :
    (m : Numerals) (s t : Text) → HaveDigits m → format_json_number m s ≡ some t → IsNumeral t
unfolding format_json_number
format_json_number-IsNumeral m s t h e = elim (Bool-cases (has_mark s)) [
  | inl x ↦
      let (f, p, q) = bind-some (m.parse_float s) format_number t (
        subst
          (λ (b : Bool).
            (if b
              then m.parse_float s >>= format_number
              else m.parse_int s >>= format_big_int m.nearest)
            ≡ some t)
          x e) in
      format_number-IsNumeral f t (h.of_parsed s f p) q
  | inr x ↦
      let (i, p, q) = bind-some (m.parse_int s) (format_big_int m.nearest) t (
        subst
          (λ (b : Bool).
            (if b
              then m.parse_float s >>= format_number
              else m.parse_int s >>= format_big_int m.nearest)
            ≡ some t)
          x e) in
      format_number-IsNumeral (m.nearest i).0 t (h.of_nearest i)
        (format_big_int-number m.nearest i t q)
]
