-- ===== src/Canonical/Encode/Plain.antt =====
-- The canonical text as a plain print of the value it is read as.
use nodary.Prelude.{
  ◌∙◌, sym, ◌>>=◌, bind-some, ◌≡◌, refl, sym, subst, Bool, true, false, ◌++◌, Option, none, some,
  List, [], ◌∷◌,
}
use nodary.Canonical.Text.{Text, write_string}
use nodary.Canonical.Number.{format_number, format_int}
use nodary.Canonical.Order.{sort}
use nodary.Canonical.Encode.{
  Value, Items, Fields, null, bool, str, int, float, literal, arr, obj, nil, cons, end, field,
  Numerals, format_json_number, comma_after, join, encode_value, encode_items, encode_fields,
}
use nodary.Canonical.Encode.Texts.{texts, texts-sort_fields}
use nodary.Canonical.Encode.Normal.{number, sort_fields, normal, normal_items, normal_fields}

-- A printer that knows nothing of numbers, and keeps the members in their order.
unfoldable mutual
  pub plain : Value → Option Text
  plain null = some (b'n' ∷ b'u' ∷ b'l' ∷ b'l' ∷ [])
  plain (bool true) = some (b't' ∷ b'r' ∷ b'u' ∷ b'e' ∷ [])
  plain (bool false) = some (b'f' ∷ b'a' ∷ b'l' ∷ b's' ∷ b'e' ∷ [])
  plain (str s) = write_string s
  plain (int i) = none
  plain (float f) = none
  plain (literal t) = some t
  plain (arr xs) = do t ← plain_items true xs; some (b'[' ∷ (t ++ b']' ∷ []))
  plain (obj fs) = do ms ← plain_fields fs; t ← join true ms; some (b'{' ∷ (t ++ b'}' ∷ []))

  plain_items : Bool → Items → Option Text
  plain_items first nil = some []
  plain_items first (cons v vs) = do
    t ← plain v
    rest ← plain_items false vs
    some (comma_after first ++ (t ++ rest))

  plain_fields : Fields → Option (List (Text × Text))
  plain_fields end = some []
  plain_fields (field k v fs) = do t ← plain v; ms ← plain_fields fs; some ((k, t) ∷ ms)

plain_fields-texts : (fs : Fields) → plain_fields fs ≡ texts plain fs
unfolding plain plain_fields texts
plain_fields-texts end = refl
plain_fields-texts (field k v fs) = rw (plain_fields-texts fs) refl

plain-sort_fields :
    (fs : Fields) (ms : List (Text × Text))
    → plain_fields fs ≡ some ms
    → plain_fields (sort_fields fs) ≡ some (sort ms)
plain-sort_fields fs ms e =
    plain_fields-texts (sort_fields fs)
    ∙ texts-sort_fields plain fs ms (sym (plain_fields-texts fs) ∙ e)

plain-number : (o : Option Text) (t : Text) → o ≡ some t → plain (number o) ≡ some t
unfolding plain
plain-number o t e =
    subst (λ (q : Option Text). plain (number q) ≡ some t) {x = some t} {y = o} (sym e) refl

module _ (m : Numerals) where
  mutual
    unfolding encode_value encode_items encode_fields normal normal_items normal_fields plain
        plain_items plain_fields

    plain-normal : (v : Value) (t : Text) → encode_value m v ≡ some t → plain (normal m v) ≡ some t
    plain-normal null t e = e
    plain-normal (bool true) t e = e
    plain-normal (bool false) t e = e
    plain-normal (str s) t e = e
    plain-normal (int i) t e = plain-number (format_int m.nearest i) t e
    plain-normal (float f) t e = plain-number (format_number f) t e
    plain-normal (literal s) t e = plain-number (format_json_number m s) t e
    plain-normal (arr xs) t e =
        let (u, p, q) =
          bind-some (encode_items m true xs) (λ t. some (b'[' ∷ (t ++ b']' ∷ []))) t e in
        rw (plain-normal_items true xs u p) q
    plain-normal (obj fs) t e =
        let (ms, p, f) =
          bind-some (encode_fields m fs)
            (λ ms. join true (sort ms) >>= (λ t. some (b'{' ∷ (t ++ b'}' ∷ [])))) t e in
        rw (plain-sort_fields (normal_fields m fs) ms (plain-normal_fields fs ms p)) f

    plain-normal_items :
        (first : Bool) (vs : Items) (t : Text)
        → encode_items m first vs ≡ some t
        → plain_items first (normal_items m vs) ≡ some t
    plain-normal_items first nil t e = e
    plain-normal_items first (cons v vs) t e =
        let (a, p, f) =
          bind-some (encode_value m v)
            (λ t. encode_items m false vs >>= (λ rest. some (comma_after first ++ (t ++ rest)))) t
            e in
        let (b, q, g) =
          bind-some (encode_items m false vs) (λ rest. some (comma_after first ++ (a ++ rest))) t
            f in
        rw (plain-normal v a p, plain-normal_items false vs b q) g

    plain-normal_fields :
        (fs : Fields) (ms : List (Text × Text))
        → encode_fields m fs ≡ some ms
        → plain_fields (normal_fields m fs) ≡ some ms
    plain-normal_fields end ms e = e
    plain-normal_fields (field k v fs) ms e =
        let (a, p, f) =
          bind-some (encode_value m v) (λ t. encode_fields m fs >>= (λ ms. some ((k, t) ∷ ms))) ms
            e in
        let (b, q, g) = bind-some (encode_fields m fs) (λ ms. some ((k, a) ∷ ms)) ms f in
        rw (plain-normal v a p, plain-normal_fields fs b q) g

  -- Two values that are written, and that stand for one value but for the spelling of numbers and the order
  -- of members, have the same text.
  pub encode_value-normal :
      (v v' : Value) (t t' : Text)
      → encode_value m v ≡ some t
      → encode_value m v' ≡ some t'
      → normal m v ≡ normal m v'
      → t ≡ t'
  encode_value-normal v v' t t' e e' q = cc (plain-normal v t e, plain-normal v' t' e', q)
