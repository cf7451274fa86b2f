-- ===== src/Canonical/Tests.antt =====
-- Concrete runs of the canonical encoding of internal/canonical.
use nodary.Prelude.{
  ◌↔◌, none, ◌≡◌, ◌≢◌, subst, ap, refl, Bool, true, false, ◌==◌, some, List, [], ◌∷◌, ◌++◌, ℤ, pos,
  negsuc, arith, length,
}
use nodary.Audit.Record.{codes}
use nodary.Canonical.Parse.{Token, seen, parse_value, parse_items, parse_fields, parse}
use nodary.Canonical.Parse.Sound.{tokens, IsJson}
use nodary.Canonical.Parse.Documents.{parse_iff}
use nodary.Canonical.Text.{
  Text, write_string, write_runes, write_rune, valid_string, is_scalar, hex_digit,
}
use nodary.Canonical.Number.{
  Float, zero_float, finite, format_number, format_int, write_int, magnitude, digits_of,
  digits_from, text_eq, write_decimal, write_scientific, write_exponent, float_of_int, strip_zeros,
}
use nodary.Canonical.Number.Chars.{IsFloat}
use nodary.Canonical.Number.Spelled.{format_int-same_text, text_eq-apart}
use nodary.Canonical.Order.{sort, insert, less_utf16, less_units, utf16, units_of}
use nodary.Canonical.Order.Sorted.{IsAscending, sort-IsAscending}
use nodary.Canonical.Encode.{
  Value, null, bool, int, float, literal, arr, obj, nil, cons, end, field, Numerals, encode_value,
  encode_items, encode_fields, join, format_json_number, has_mark,
}
use nodary.Canonical.Encode.Normal.{HaveDigits, normal, IsValue, AreItems, AreFields}
use nodary.Canonical.Encode.Read.{read_value}
use nodary.Canonical.Encode.RoundTrip.{read_value-encode_value}
use nodary.Canonical.Encode.Members.{encode_value-Rearranged, exchange}

abbrev one_eighth : Float
one_eighth = finite false (b'1' ∷ b'2' ∷ b'5' ∷ []) (negsuc 0)

format_number-one_eighth : format_number one_eighth ≡ some (codes "0.125")
unfolding format_number write_decimal
format_number-one_eighth = refl

abbrev large : Float
large = finite true (codes "1152921504606847") (pos 21)

format_number-large : format_number large ≡ some (codes "-1.152921504606847e+21")
unfolding format_number write_decimal write_scientific write_exponent digits_of digits_from
format_number-large = refl

write_string_control :
    write_string (10 ∷ 1 ∷ b'"' ∷ 0x20AC ∷ [])
    ≡ some (b'"' ∷ codes "\\n\\u0001\\\"" ++ (0x20AC ∷ b'"' ∷ []))
unfolding write_string write_runes write_rune valid_string is_scalar hex_digit
write_string_control = refl

-- A reader of literals that knows one number with a mark, and one without.
abbrev numerals : Numerals
numerals = record {
  nearest = λ i. (zero_float, false);
  parse_int = λ t. some (pos 0);
  parse_float = λ t. some one_eighth;
}

numerals-HaveDigits : HaveDigits numerals
numerals-HaveDigits = record {
  of_nearest = λ i. tt;
  of_parsed = λ t f e.
      subst IsFloat {x = one_eighth} {y = f} (cc e) ((refl, (refl, (refl, tt))), omega arith);
}

abbrev first : Text
first = 0xFB33 ∷ []

abbrev second : Text
second = codes "ab"

abbrev third : Text
third = 0x1F600 ∷ []

abbrev last : Text
last = codes "a"

-- The keys of an object, one of them above the basic plane, which goes before U+FB33.
abbrev keys : List (Text × Text)
keys = (first, codes "1") ∷ (second, codes "2") ∷ (third, codes "3") ∷ (last, codes "4") ∷ []

sort-keys :
    sort keys
    ≡ (codes "a", codes "4")
      ∷ (codes "ab", codes "2")
      ∷ (0x1F600 ∷ [], codes "3")
      ∷ (0xFB33 ∷ [], codes "1")
      ∷ []
unfolding sort insert less_utf16 less_units utf16 units_of
sort-keys = refl

keys_ascend : IsAscending (sort keys)
unfolding valid_string is_scalar text_eq
keys_ascend = sort-IsAscending keys (
  refl,
  (
    text_eq-apart first second refl,
    (text_eq-apart first third refl, (text_eq-apart first last refl, tt)),
  ),
  (
    refl,
    (text_eq-apart second third refl, (text_eq-apart second last refl, tt)),
    (refl, (text_eq-apart third last refl, tt), (refl, tt, tt)),
  ),
)

-- 2^60, the integer its float64 is written as, and their float64.
abbrev power : ℤ
power = pos 1152921504606846976

abbrev written : ℤ
written = pos 1152921504606847000

abbrev nearest_power : ℤ → Float × Bool
nearest_power i =
    (finite false (codes "1152921504606847") (pos 18), magnitude i == 1152921504606846976)

format_int-same_text_example :
    (format_int nearest_power power ≡ format_int nearest_power written)
    × (format_int nearest_power power ≢ some (write_int power))
unfolding format_number write_decimal digits_of digits_from
format_int-same_text_example =
    format_int-same_text nearest_power power written (omega arith) (omega arith)
      (λ e. omega (arith, ap magnitude e)) refl refl refl

-- An object with an object, an array and numbers of every kind in it.
abbrev inner : Value
inner = arr (cons null (cons (bool true) (cons (int (negsuc 6)) (cons (float one_eighth) nil))))

abbrev document : Value
document = obj (
    field (codes "b") inner
      (field (codes "a") (literal (codes "125e-3")) (field (codes "c") (obj end) end)))

abbrev document_text : Text
document_text = codes "{\"a\":0.125,\"b\":[null,true,-7,0.125],\"c\":{}}"

-- The same members in another order, with the number as a float64.
abbrev other : Value
other = obj (
    field (codes "c") (obj end)
      (field (codes "a") (float one_eighth) (field (codes "b") inner end)))

other_encoded : encode_value numerals other ≡ some document_text
unfolding encode_value encode_items encode_fields join sort insert less_utf16 less_units utf16
    units_of write_string write_runes write_rune valid_string is_scalar format_int float_of_int
    format_number write_decimal format_json_number has_mark digits_of digits_from strip_zeros
other_encoded = refl

other_is : IsValue other
unfolding IsValue AreItems AreFields
other_is = (
  tt,
  (
    ((refl, (refl, (refl, tt))), omega arith),
    ((tt, (tt, (tt, (((refl, (refl, (refl, tt))), omega arith), tt)))), tt),
  ),
)

document_encoded : encode_value numerals document ≡ some document_text
unfolding encode_value encode_items encode_fields join sort insert less_utf16 less_units utf16
    units_of write_string write_runes write_rune valid_string is_scalar format_int float_of_int
    format_number write_decimal format_json_number has_mark digits_of digits_from strip_zeros
document_encoded = refl

document_is : IsValue document
unfolding IsValue AreItems AreFields
document_is = ((tt, (tt, (tt, (((refl, (refl, (refl, tt))), omega arith), tt)))), (tt, (tt, tt)))

read_value-encode_value_example :
    read_value (length document_text) (document_text ++ []) ≡ some (normal numerals document, [])
read_value-encode_value_example =
    read_value-encode_value numerals numerals-HaveDigits document document_text [] document_is
      document_encoded tt

encode_value-Rearranged_example :
    encode_value numerals (obj (field (codes "b") null (field (codes "a") (bool true) end)))
    ≡ encode_value numerals (obj (field (codes "a") (bool true) (field (codes "b") null end)))
unfolding valid_string is_scalar text_eq
encode_value-Rearranged_example =
    encode_value-Rearranged numerals (field (codes "b") null (field (codes "a") (bool true) end))
      (field (codes "a") (bool true) (field (codes "b") null end))
      (refl, (text_eq-apart (codes "b") (codes "a") refl, tt), (refl, tt, tt))
      (exchange (codes "b") (codes "a") null (bool true) end)

-- A document, and one with a key twice.
abbrev one_key : List Token
one_key =
    Token.open_object
    ∷ Token.of_string (codes "a")
    ∷ Token.open_array
    ∷ Token.of_number (codes "1")
    ∷ Token.close_array
    ∷ Token.close_object
    ∷ []

abbrev key_twice : List Token
key_twice =
    Token.open_object
    ∷ Token.of_string (codes "a")
    ∷ Token.of_null
    ∷ Token.of_string (codes "a")
    ∷ Token.of_null
    ∷ Token.close_object
    ∷ []

duplicate_refused : parse key_twice ≡ none
unfolding parse parse_value parse_items parse_fields seen text_eq
duplicate_refused = refl

parse_iff_example :
    (parse one_key ≡ some (obj (field (codes "a") (arr (cons (literal (codes "1")) nil)) end))) ↔ (
      (one_key ≡ tokens (obj (field (codes "a") (arr (cons (literal (codes "1")) nil)) end)))
      × IsJson (obj (field (codes "a") (arr (cons (literal (codes "1")) nil)) end)))
parse_iff_example =
    parse_iff one_key (obj (field (codes "a") (arr (cons (literal (codes "1")) nil)) end))

-- -0.00125.
abbrev small_float : Float
small_float = finite true (b'1' ∷ b'2' ∷ b'5' ∷ []) (negsuc 2)
