-- ===== src/Canonical/Parse/Documents.antt =====
-- Which values internal/canonical/value.go's `parse` yields, and of which tokens.
use nodary.Prelude.{
  bind-some, ℕ, zero, suc, ◌≤◌, ◌<◌, ◌≡◌, refl, sym, ap, ◌∙◌, subst, false, some, List, [], ◌∷◌,
  ◌++◌, arith, length, length-append, ◌↔◌,
}
use mathlib.Core.List.{append_assoc, append-nil}
use nodary.Canonical.Text.{Text}
use nodary.Canonical.Encode.{
  Value, Items, Fields, null, bool, str, int, float, literal, arr, obj, nil, cons, end, field,
}
use nodary.Canonical.Parse.{
  Token, closes_array, parse_value, parse_items, parse_fields, only, parse,
}
use nodary.Canonical.Parse.Sound.{
  tokens, item_tokens, field_tokens, IsJson, AreJson, AreNew, absent-seen, parse_value_sound,
}

-- The first token of a value closes nothing.
tokens_first :
    (v : Value)
    → IsJson v
    → (t : Token) × (ts : List Token) × (tokens v ≡ t ∷ ts) × (closes_array t ≡ false)
unfolding tokens item_tokens field_tokens IsJson AreJson AreNew
tokens_first null h = (Token.of_null, [], refl, refl)
tokens_first (bool b) h = (Token.of_bool b, [], refl, refl)
tokens_first (str s) h = (Token.of_string s, [], refl, refl)
tokens_first (literal t) h = (Token.of_number t, [], refl, refl)
tokens_first (int i) h = absurd h
tokens_first (float f) h = absurd h
tokens_first (arr xs) h = (Token.open_array, item_tokens xs, refl, refl)
tokens_first (obj fs) h = (Token.open_object, field_tokens fs, refl, refl)

parse_items_next :
    (n : ℕ) (t : Token) (ts more rest : List Token) (v : Value) (vs : Items)
    → closes_array t ≡ false
    → parse_value n (t ∷ ts) ≡ some (v, more)
    → parse_items n more ≡ some (vs, rest)
    → parse_items (suc n) (t ∷ ts) ≡ some (cons v vs, rest)
unfolding parse_value parse_items parse_fields
parse_items_next n t ts more rest v vs c e f = rw (parse_items, c, e, f) refl

item_tokens-nonempty : (vs : Items) → AreJson vs → 0 < length (item_tokens vs)
unfolding tokens item_tokens field_tokens IsJson AreJson AreNew
item_tokens-nonempty nil h = omega arith
item_tokens-nonempty (cons v vs) (x, h) =
    let (t, ts, e, c) = tokens_first v x in
    omega (arith, ap length e, length-append {0} (tokens v) (item_tokens vs))

mutual
  unfolding parse_value parse_items parse_fields tokens item_tokens field_tokens IsJson AreJson
      AreNew

  parse_value_complete :
      (v : Value) (n : ℕ) (rest : List Token)
      → IsJson v
      → length (tokens v) ≤ n
      → parse_value n (tokens v ++ rest) ≡ some (v, rest)
  parse_value_complete null zero rest h l = absurd (omega (arith, l))
  parse_value_complete null (suc n) rest h l = refl
  parse_value_complete (bool b) zero rest h l = absurd (omega (arith, l))
  parse_value_complete (bool b) (suc n) rest h l = refl
  parse_value_complete (str s) zero rest h l = absurd (omega (arith, l))
  parse_value_complete (str s) (suc n) rest h l = refl
  parse_value_complete (literal t) zero rest h l = absurd (omega (arith, l))
  parse_value_complete (literal t) (suc n) rest h l = refl
  parse_value_complete (int i) n rest h l = absurd h
  parse_value_complete (float f) n rest h l = absurd h
  parse_value_complete (arr xs) zero rest h l = absurd (omega (arith, l))
  parse_value_complete (arr xs) (suc n) rest h l =
      rw (parse_items_complete xs n rest h (omega (arith, l))) refl
  parse_value_complete (obj fs) zero rest h l = absurd (omega (arith, l))
  parse_value_complete (obj fs) (suc n) rest h l =
      rw (parse_fields_complete fs n [] rest h (omega (arith, l))) refl

  parse_items_complete :
      (vs : Items) (n : ℕ) (rest : List Token)
      → AreJson vs
      → length (item_tokens vs) ≤ n
      → parse_items n (item_tokens vs ++ rest) ≡ some (vs, rest)
  parse_items_complete nil zero rest h l = absurd (omega (arith, l))
  parse_items_complete nil (suc n) rest h l = refl
  parse_items_complete (cons v vs) zero rest (x, h) l =
      absurd (omega (arith, l, item_tokens-nonempty (cons v vs) (x, h)))
  parse_items_complete (cons v vs) (suc n) rest (x, h) l =
      let (t, ts, e, c) = tokens_first v x in
      let more = item_tokens vs ++ rest in
      let size = length-append {0} (tokens v) (item_tokens vs) in
      let first : parse_value n (tokens v ++ more) ≡ some (v, more) =
        parse_value_complete v n more x (omega (arith, l, size, item_tokens-nonempty vs h)) in
      let others = parse_items_complete vs n rest h (omega (arith, l, size, ap length e)) in
      rw (append_assoc (tokens v) (item_tokens vs) rest) (
        subst (λ (s : List Token). parse_items (suc n) (s ++ more) ≡ some (cons v vs, rest))
          {x = t ∷ ts} {y = tokens v} (sym e)
          (parse_items_next n t (ts ++ more) more rest v vs c
            (ap (λ (s : List Token). parse_value n (s ++ more)) (sym e) ∙ first) others))

  parse_fields_complete :
      (fs : Fields) (n : ℕ) (ks : List Text) (rest : List Token)
      → AreNew ks fs
      → length (field_tokens fs) ≤ n
      → parse_fields n ks (field_tokens fs ++ rest) ≡ some (fs, rest)
  parse_fields_complete end zero ks rest h l = absurd (omega (arith, l))
  parse_fields_complete end (suc n) ks rest h l = refl
  parse_fields_complete (field k v fs) zero ks rest (s, x, h) l = absurd (omega (arith, l))
  parse_fields_complete (field k v fs) (suc n) ks rest (s, x, h) l =
      let size = length-append {0} (tokens v) (field_tokens fs) in
      let first = parse_value_complete v n (field_tokens fs ++ rest) x (omega (arith, l, size)) in
      let others = parse_fields_complete fs n (k ∷ ks) rest h (omega (arith, l, size)) in
      rw (append_assoc (tokens v) (field_tokens fs) rest)
        (rw (parse_fields, absent-seen k ks s, first, others) refl)

only-some : (z : Value × List Token) (v : Value) → only z ≡ some v → z ≡ (v, [])
only-some (w, []) v e = let q : w ≡ v = cc e in cc q
only-some (w, t ∷ ts) v e = absurd (cc e)

-- The parser yields a value exactly for the tokens of that value and no others after them, where its
-- numbers are literals and no object in it has a key twice.
pub parse_iff : (ts : List Token) (v : Value) → (parse ts ≡ some v) ↔ ((ts ≡ tokens v) × IsJson v)
unfolding parse
parse_iff ts v = (only_if, on_tokens)
  where
    only_if : parse ts ≡ some v → (ts ≡ tokens v) × IsJson v
    only_if e =
        let (z, p, q) = bind-some (parse_value (length ts) ts) only v e in
        let (same, json) = parse_value_sound (length ts) ts z p in
        let r : z ≡ (v, []) = only-some z v q in
        (
          same ∙ ap (λ (y : Value × List Token). tokens y.0 ++ y.1) r ∙ append-nil (tokens v),
          subst (λ (y : Value × List Token). IsJson y.0) r json,
        )

    on_tokens : (ts ≡ tokens v) × IsJson v → parse ts ≡ some v
    on_tokens (e, h) =
        let p : parse_value (length ts) ts ≡ some (v, []) =
          subst (λ (s : List Token). parse_value (length s) s ≡ some (v, [])) {x = tokens v}
            {y = ts} (sym e)
            (subst (λ (s : List Token). parse_value (length (tokens v)) s ≡ some (v, []))
              (append-nil (tokens v))
              (parse_value_complete v (length (tokens v)) [] h (omega arith))) in
        rw p refl
