-- ===== src/Audit/Digest/Tests.antt =====
-- The text of one audit record, and the theorems on it at that record.
use nodary.Prelude.{String, ◌≡◌, ◌⊎◌, refl, false, none, some, [], ◌∷◌, ap, arith}
use nodary.Audit.Record.{Record, codes, compute, truncate_ms, genesis_prev_hash}
use nodary.Audit.Tests.{first}
use nodary.Audit.Digest.{preimage_value, preimage_text, digest}
use nodary.Audit.Digest.Binding.{IsStored}
use nodary.Audit.Digest.Chain.{SameSum, Links-same_texts}
use nodary.Canonical.Text.{Text, write_string, write_runes, write_rune, valid_string, is_scalar}
use nodary.Canonical.Number.{
  zero_float, digits_of, digits_from, format_int, format_number, float_of_int, write_decimal,
  strip_zeros, text_eq,
}
use nodary.Canonical.Number.Spelled.{digits_of-injective}
use nodary.Canonical.Order.{sort, insert, less_utf16, less_units, utf16, units_of}
use nodary.Canonical.Encode.{Fields, end, Numerals, encode_value, encode_items, encode_fields, join}
use nodary.Canonical.Encode.Normal.{HaveDigits, AreFields}

-- No detail, a time as a number, and no number that is not a small integer.
abbrev no_detail : String → Fields
no_detail s = end

abbrev numerals : Numerals
numerals = record {
  nearest = λ i. (zero_float, false);
  parse_int = λ t. none;
  parse_float = λ t. none;
}

numerals-HaveDigits : HaveDigits numerals
numerals-HaveDigits = record { of_nearest = λ i. tt; of_parsed = λ t f e. absurd (cc e) }

abbrev constant : Text → String
constant t = "1111111111111111111111111111111111111111111111111111111111111111"

text_of_first :
    preimage_text digits_of no_detail numerals first
    ≡ some (
        codes
          "{\"action\":\"user.add\",\"actor\":{\"id\":\"root\",\"method\":\"local\",\"session\":null},\"detail\":{},\"install\":\"ins_a\",\"intent_hash\":null,\"justification\":null,\"outcome\":\"success\",\"prev_hash\":\"0000000000000000000000000000000000000000000000000000000000000000\",\"seq\":1,\"source\":{\"ip\":null,\"version\":null},\"target\":null,\"ts\":\"5000000\",\"v\":1}")
unfolding preimage_text preimage_value encode_value encode_items encode_fields join sort insert
    less_utf16 less_units utf16 units_of write_string write_runes write_rune valid_string is_scalar
    format_int float_of_int format_number write_decimal digits_of digits_from strip_zeros text_eq
text_of_first = refl

-- The same record, of a failed act.
abbrev failed : Record
failed = record first { outcome = "failure" }

first-IsStored : IsStored digits_of no_detail numerals first
unfolding AreFields encode_value encode_items encode_fields join sort
first-IsStored = record {
  v_small = omega arith;
  seq_small = omega arith;
  whole = refl;
  detail_text = refl;
  detail_floats = tt;
}

failed-IsStored : IsStored digits_of no_detail numerals failed
unfolding AreFields encode_value encode_items encode_fields join sort
failed-IsStored = record {
  v_small = omega arith;
  seq_small = omega arith;
  whole = refl;
  detail_text = refl;
  detail_floats = tt;
}

first_hash : compute (digest digits_of no_detail numerals constant) first ≡ some first.hash
unfolding compute digest preimage_text preimage_value encode_value encode_items encode_fields join
    sort insert less_utf16 less_units utf16 units_of write_string write_runes write_rune
    valid_string is_scalar format_int float_of_int format_number write_decimal digits_of digits_from
    strip_zeros text_eq
first_hash = refl

failed_hash : compute (digest digits_of no_detail numerals constant) failed ≡ some failed.hash
unfolding compute digest preimage_text preimage_value encode_value encode_items encode_fields join
    sort insert less_utf16 less_units utf16 units_of write_string write_runes write_rune
    valid_string is_scalar format_int float_of_int format_number write_decimal digits_of digits_from
    strip_zeros text_eq
failed_hash = refl

Links-same_texts_example :
    ((first ∷ [] ≡ failed ∷ []) × (genesis_prev_hash ≡ genesis_prev_hash)) ⊎ SameSum constant
Links-same_texts_example =
    Links-same_texts digits_of no_detail numerals constant numerals-HaveDigits
      (λ a b e. ap truncate_ms (digits_of-injective a b e)) "ins_a" "ins_a" 0 0 genesis_prev_hash
      genesis_prev_hash (first ∷ []) (failed ∷ []) (refl, refl, refl, first_hash, tt)
      (refl, refl, refl, failed_hash, tt) (first-IsStored, tt) (failed-IsStored, tt) refl refl
