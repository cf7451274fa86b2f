-- ===== src/Canonical/Encode/RoundTrip.antt =====
-- What `encodeValue` of internal/canonical/canonical.go writes, read back.
pub mod Pieces
use nodary.Prelude.{
  ◌>>=◌, bind-some, ℕ, zero, suc, ◌+◌, ◌≤◌, ◌<◌, ◌≡◌, refl, sym, ap, ◌∙◌, subst, Bool, true, false,
  ◌==◌, Option, some, List, [], ◌∷◌, ◌++◌, inl, inr, Bool-cases, arith, length, length-append,
}
use mathlib.Core.List.{append_assoc}
use nodary.Canonical.Text.{Text, quote, write_string}
use nodary.Canonical.Text.Read.{read_text-write_string}
use nodary.Canonical.Number.{format_number, format_int}
use nodary.Canonical.Number.Chars.{
  IsNumeral, is_numeral, format_number-IsNumeral, format_int-IsNumeral,
}
use nodary.Canonical.Order.{less_utf16, insert, sort}
use nodary.Canonical.Encode.{
  Value, Items, Fields, null, bool, str, int, float, literal, arr, obj, nil, cons, end, field,
  Numerals, format_json_number, comma_after, join, encode_value, encode_items, encode_fields,
}
use nodary.Canonical.Encode.Read.{
  read_value, read_items, read_fields, Stops, Starts, read_value-null, read_value-true,
  read_value-false, read_value-string, read_value-array, read_value-object, read_value-number,
  read_items-nil, read_items-cons, read_fields-end, read_fields-field,
}
use nodary.Canonical.Encode.Normal.{
  number, insert_field, sort_fields, normal, normal_items, normal_fields, IsValue, AreItems,
  AreFields, HaveDigits, format_json_number-IsNumeral,
}
use nodary.Canonical.Encode.RoundTrip.Pieces.{
  Reads, ReadsAs, Closes, Closes-nil, Closes-comma, ReadsItems, ReadsFields, Match, Match-sort,
  Reads-string, number-IsNumeral, ReadsItems-nil, ReadsItems-cons, join-ReadsFields,
}

Reads-array :
    (t : Text) (vs : Items) → ReadsItems true t vs → ReadsAs (b'[' ∷ (t ++ b']' ∷ [])) (arr vs)
Reads-array t vs q = (refl, read)
  where
    read : Reads (b'[' ∷ (t ++ b']' ∷ [])) (arr vs)
    read zero rest h d = absurd (omega (arith, h))
    read (suc n) rest h d = rw (append_assoc t (b']' ∷ []) rest) (
        read_value-array n vs (t ++ (b']' ∷ rest)) rest
          (q n rest (omega (arith, h, length-append {0} t (b']' ∷ [])))))

Reads-object :
    (t : Text) (fs : Fields) → ReadsFields true t fs → ReadsAs (b'{' ∷ (t ++ b'}' ∷ [])) (obj fs)
Reads-object t fs q = (refl, read)
  where
    read : Reads (b'{' ∷ (t ++ b'}' ∷ [])) (obj fs)
    read zero rest h d = absurd (omega (arith, h))
    read (suc n) rest h d = rw (append_assoc t (b'}' ∷ []) rest) (
        read_value-object n fs (t ++ (b'}' ∷ rest)) rest
          (q n rest (omega (arith, h, length-append {0} t (b'}' ∷ [])))))

Reads-literal :
    (t : Text) (v : Value) (c : ℕ) (s : Text)
    → t ≡ c ∷ s
    → (c == b']') ≡ false
    → ((n : ℕ) (rest : Text) → read_value (suc n) ((c ∷ s) ++ rest) ≡ some (v, rest))
    → ReadsAs t v
Reads-literal t v c s e x r =
    subst (λ (u : Text). ReadsAs u v) {x = c ∷ s} {y = t} (sym e) (x, read)
  where
    read : Reads (c ∷ s) v
    read zero rest h d = absurd (omega (arith, h))
    read (suc n) rest h d = r n rest

module _ (m : Numerals) (w : HaveDigits m) where
  mutual
    unfolding encode_value encode_items encode_fields normal normal_items normal_fields IsValue
        AreItems AreFields

    encode_value-ReadsAs :
        (v : Value) (t : Text) → IsValue v → encode_value m v ≡ some t → ReadsAs t (normal m v)
    encode_value-ReadsAs null t h e =
        Reads-literal t null b'n' (b'u' ∷ b'l' ∷ b'l' ∷ []) (cc e) refl
          (λ n rest. read_value-null n rest)
    encode_value-ReadsAs (bool true) t h e =
        Reads-literal t (bool true) b't' (b'r' ∷ b'u' ∷ b'e' ∷ []) (cc e) refl
          (λ n rest. read_value-true n rest)
    encode_value-ReadsAs (bool false) t h e =
        Reads-literal t (bool false) b'f' (b'a' ∷ b'l' ∷ b's' ∷ b'e' ∷ []) (cc e) refl
          (λ n rest. read_value-false n rest)
    encode_value-ReadsAs (str s) t h e = Reads-string s t e
    encode_value-ReadsAs (int i) t h e =
        number-IsNumeral (format_int m.nearest i) t e
          (format_int-IsNumeral m.nearest i t (w.of_nearest i) e)
    encode_value-ReadsAs (float f) t h e =
        number-IsNumeral (format_number f) t e (format_number-IsNumeral f t h e)
    encode_value-ReadsAs (literal s) t h e =
        number-IsNumeral (format_json_number m s) t e (format_json_number-IsNumeral m s t w e)
    encode_value-ReadsAs (arr xs) t h e =
        let (u, p, q) =
          bind-some (encode_items m true xs) (λ t. some (b'[' ∷ (t ++ b']' ∷ []))) t e in
        subst (λ (z : Text). ReadsAs z (arr (normal_items m xs))) {x = b'[' ∷ (u ++ b']' ∷ [])}
          {y = t} (cc q)
          (Reads-array u (normal_items m xs) (encode_items-ReadsItems true xs u h p).1)
    encode_value-ReadsAs (obj fs) t h e =
        let (ms, p, f) =
          bind-some (encode_fields m fs)
            (λ ms. join true (sort ms) >>= (λ t. some (b'{' ∷ (t ++ b'}' ∷ [])))) t e in
        let (u, q, g) = bind-some (join true (sort ms)) (λ t. some (b'{' ∷ (t ++ b'}' ∷ []))) t f in
        let gs = sort_fields (normal_fields m fs) in
        subst (λ (z : Text). ReadsAs z (obj gs)) {x = b'{' ∷ (u ++ b'}' ∷ [])} {y = t} (cc g)
          (Reads-object u gs (
            join-ReadsFields true gs (sort ms) u
              (Match-sort (normal_fields m fs) ms (encode_fields-Match fs ms h p)) q))

    encode_items-ReadsItems :
        (first : Bool) (vs : Items) (t : Text)
        → AreItems vs
        → encode_items m first vs ≡ some t
        → Closes first t × ReadsItems first t (normal_items m vs)
    encode_items-ReadsItems first nil t h e =
        subst (λ (z : Text). Closes first z × ReadsItems first z nil) {x = []} {y = t} (cc e)
          (Closes-nil first, ReadsItems-nil first)
    encode_items-ReadsItems first (cons v vs) t (x, h) e =
        let (a, p, f) =
          bind-some (encode_value m v)
            (λ t. encode_items m false vs >>= (λ rest. some (comma_after first ++ (t ++ rest)))) t
            e in
        let (b, q, g) =
          bind-some (encode_items m false vs) (λ rest. some (comma_after first ++ (a ++ rest))) t
            f in
        let (d, r) = encode_items-ReadsItems false vs b h q in
        subst
          (λ (z : Text).
            Closes first z × ReadsItems first z (cons (normal m v) (normal_items m vs)))
          {x = comma_after first ++ (a ++ b)} {y = t} (cc g)
          (
            Closes-comma first (a ++ b),
            ReadsItems-cons first a b (normal m v) (normal_items m vs)
                (encode_value-ReadsAs v a x p) d r,
          )

    encode_fields-Match :
        (fs : Fields) (ms : List (Text × Text))
        → AreFields fs
        → encode_fields m fs ≡ some ms
        → Match (normal_fields m fs) ms
    encode_fields-Match end ms h e =
        subst (λ (z : List (Text × Text)). Match end z) {x = []} {y = ms} (cc e) tt
    encode_fields-Match (field k v fs) ms (x, h) e =
        let (a, p, f) =
          bind-some (encode_value m v) (λ t. encode_fields m fs >>= (λ ms. some ((k, t) ∷ ms))) ms
            e in
        let (b, q, g) = bind-some (encode_fields m fs) (λ ms. some ((k, a) ∷ ms)) ms f in
        subst (λ (z : List (Text × Text)). Match (field k (normal m v) (normal_fields m fs)) z)
          {x = (k, a) ∷ b} {y = ms} (cc g)
          (refl, encode_value-ReadsAs v a x p, encode_fields-Match fs b h q)

  -- Where every float64, in the value or answered for a number, has digits: what is written for the
  -- value, read back where nothing that follows goes on a number, is the value, its numbers as the
  -- literals they are written as and its members in the order of their keys. The length of the text is
  -- fuel enough.
  pub read_value-encode_value :
      (v : Value) (t rest : Text)
      → IsValue v
      → encode_value m v ≡ some t
      → Stops rest
      → read_value (length t) (t ++ rest) ≡ some (normal m v, rest)
  read_value-encode_value v t rest h e s =
      (encode_value-ReadsAs v t h e).1 (length t) rest (omega arith) s

  -- Two such values with one canonical text are the same value, but for the spelling of their numbers
  -- and the order of their members.
  pub encode_value-injective :
      (v v' : Value) (t : Text)
      → IsValue v
      → IsValue v'
      → encode_value m v ≡ some t
      → encode_value m v' ≡ some t
      → normal m v ≡ normal m v'
  encode_value-injective v v' t h h' e e' =
      cc (read_value-encode_value v t [] h e tt, read_value-encode_value v' t [] h' e' tt)
