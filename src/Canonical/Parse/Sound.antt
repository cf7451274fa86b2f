-- ===== src/Canonical/Parse/Sound.antt =====
-- What internal/canonical/value.go's `parse` has read when it yields a value.
use nodary.Prelude.{
  ◌>>=◌, bind-some, ℕ, zero, suc, ◌≡◌, refl, sym, ap, ◌∙◌, subst, true, false, some, List, [], ◌∷◌,
  ◌++◌, inl, inr, Bool-cases, ◌≢◌, All, arith,
}
use mathlib.Core.List.{append_assoc}
use nodary.Canonical.Text.{Text}
use nodary.Canonical.Number.{text_eq}
use nodary.Canonical.Number.Spelled.{text_eq_sound, text_eq_refl}
use nodary.Canonical.Encode.{
  Value, Items, Fields, null, bool, str, int, float, literal, arr, obj, nil, cons, end, field,
}
use nodary.Canonical.Parse.{Token, seen, closes_array, parse_value, parse_items, parse_fields}

-- The tokens of a document.
unfoldable mutual
  pub tokens : Value → List Token
  tokens null = Token.of_null ∷ []
  tokens (bool b) = Token.of_bool b ∷ []
  tokens (str s) = Token.of_string s ∷ []
  tokens (literal t) = Token.of_number t ∷ []
  tokens (int i) = []
  tokens (float f) = []
  tokens (arr xs) = Token.open_array ∷ item_tokens xs
  tokens (obj fs) = Token.open_object ∷ field_tokens fs

  pub item_tokens : Items → List Token
  item_tokens nil = Token.close_array ∷ []
  item_tokens (cons v vs) = tokens v ++ item_tokens vs

  pub field_tokens : Fields → List Token
  field_tokens end = Token.close_object ∷ []
  field_tokens (field k v fs) = Token.of_string k ∷ (tokens v ++ field_tokens fs)

-- A value of JSON: its numbers are literals, and no object has a key twice.
unfoldable mutual
  pub IsJson : Value → Type 0
  IsJson (int i) = ⊥
  IsJson (float f) = ⊥
  IsJson (arr xs) = AreJson xs
  IsJson (obj fs) = AreNew [] fs
  IsJson _ = Unit

  pub AreJson : Items → Type 0
  AreJson nil = Unit
  AreJson (cons v vs) = IsJson v × AreJson vs

  -- The keys are neither among `ks` nor twice among themselves.
  pub AreNew : List Text → Fields → Type 0
  AreNew ks end = Unit
  AreNew ks (field k v fs) = All (λ l. k ≢ l) ks × IsJson v × AreNew (k ∷ ks) fs

seen-absent : (k : Text) (ks : List Text) → seen k ks ≡ false → All (λ l. k ≢ l) ks
unfolding seen
seen-absent k [] h = tt
seen-absent k (l ∷ ls) h = (
  λ e.
      let same : text_eq k l ≡ true = subst (λ (x : Text). text_eq k x ≡ true) e (text_eq_refl k) in
      absurd (ground (arith, h, same)),
  seen-absent k ls (ground (arith, h)),
)

pub absent-seen : (k : Text) (ks : List Text) → All (λ l. k ≢ l) ks → seen k ks ≡ false
unfolding seen
absent-seen k [] h = refl
absent-seen k (l ∷ ls) (x, h) = elim (Bool-cases (text_eq k l)) [
  | inl e ↦ absurd (x (text_eq_sound k l e))
  | inr e ↦ ground (arith, e, absent-seen k ls h)
]

-- What was read so far, for a result that ends here.
value_read :
    (all ts : List Token) (w : Value) (z : Value × List Token)
    → some (w, ts) ≡ some z
    → all ≡ tokens w ++ ts
    → IsJson w
    → (all ≡ tokens z.0 ++ z.1) × IsJson z.0
value_read all ts w z e p j =
    subst (λ (r : Value × List Token). (all ≡ tokens r.0 ++ r.1) × IsJson r.0) {x = (w, ts)} {y = z}
      (cc e) (p, j)

items_read :
    (all ts : List Token) (ws : Items) (z : Items × List Token)
    → some (ws, ts) ≡ some z
    → all ≡ item_tokens ws ++ ts
    → AreJson ws
    → (all ≡ item_tokens z.0 ++ z.1) × AreJson z.0
items_read all ts ws z e p j =
    subst (λ (r : Items × List Token). (all ≡ item_tokens r.0 ++ r.1) × AreJson r.0) {x = (ws, ts)}
      {y = z} (cc e) (p, j)

fields_read :
    (ks : List Text) (all ts : List Token) (ws : Fields) (z : Fields × List Token)
    → some (ws, ts) ≡ some z
    → all ≡ field_tokens ws ++ ts
    → AreNew ks ws
    → (all ≡ field_tokens z.0 ++ z.1) × AreNew ks z.0
fields_read ks all ts ws z e p j =
    subst (λ (r : Fields × List Token). (all ≡ field_tokens r.0 ++ r.1) × AreNew ks r.0)
      {x = (ws, ts)} {y = z} (cc e) (p, j)

closes_array-true : (t : Token) → closes_array t ≡ true → t ≡ Token.close_array
closes_array-true Token.close_array e = refl
closes_array-true Token.of_null e = absurd (cc e)
closes_array-true (Token.of_bool b) e = absurd (cc e)
closes_array-true (Token.of_string s) e = absurd (cc e)
closes_array-true (Token.of_number s) e = absurd (cc e)
closes_array-true Token.open_array e = absurd (cc e)
closes_array-true Token.open_object e = absurd (cc e)
closes_array-true Token.close_object e = absurd (cc e)

mutual
  unfolding parse_value parse_items parse_fields tokens item_tokens field_tokens IsJson AreJson
      AreNew

  pub parse_value_sound :
      (n : ℕ) (ts : List Token) (z : Value × List Token)
      → parse_value n ts ≡ some z
      → (ts ≡ tokens z.0 ++ z.1) × IsJson z.0
  parse_value_sound zero ts z e = absurd (cc e)
  parse_value_sound (suc n) [] z e = absurd (cc e)
  parse_value_sound (suc n) (Token.of_null ∷ ts) z e =
      value_read (Token.of_null ∷ ts) ts null z e refl tt
  parse_value_sound (suc n) (Token.of_bool b ∷ ts) z e =
      value_read (Token.of_bool b ∷ ts) ts (bool b) z e refl tt
  parse_value_sound (suc n) (Token.of_string s ∷ ts) z e =
      value_read (Token.of_string s ∷ ts) ts (str s) z e refl tt
  parse_value_sound (suc n) (Token.of_number t ∷ ts) z e =
      value_read (Token.of_number t ∷ ts) ts (literal t) z e refl tt
  parse_value_sound (suc n) (Token.open_array ∷ ts) z e =
      let (r, p, q) = bind-some (parse_items n ts) (λ r. some (arr r.0, r.1)) z e in
      let (same, json) = parse_items_sound n ts r p in
      value_read (Token.open_array ∷ ts) r.1 (arr r.0) z q
        (ap (λ (s : List Token). Token.open_array ∷ s) same) json
  parse_value_sound (suc n) (Token.open_object ∷ ts) z e =
      let (r, p, q) = bind-some (parse_fields n [] ts) (λ r. some (obj r.0, r.1)) z e in
      let (same, json) = parse_fields_sound n [] ts r p in
      value_read (Token.open_object ∷ ts) r.1 (obj r.0) z q
        (ap (λ (s : List Token). Token.open_object ∷ s) same) json
  parse_value_sound (suc n) (Token.close_array ∷ ts) z e = absurd (cc e)
  parse_value_sound (suc n) (Token.close_object ∷ ts) z e = absurd (cc e)

  parse_items_sound :
      (n : ℕ) (ts : List Token) (z : Items × List Token)
      → parse_items n ts ≡ some z
      → (ts ≡ item_tokens z.0 ++ z.1) × AreJson z.0
  parse_items_sound zero ts z e = absurd (cc e)
  parse_items_sound (suc n) [] z e = absurd (cc e)
  parse_items_sound (suc n) (t ∷ ts) z e = elim (Bool-cases (closes_array t)) [
    | inl x ↦
        items_read (t ∷ ts) ts nil z (rw (parse_items, x) at e)
          (ap (λ (c : Token). c ∷ ts) (closes_array-true t x)) tt
    | inr x ↦
        let (v, p, f) =
          bind-some (parse_value n (t ∷ ts))
            (λ v. parse_items n v.1 >>= (λ vs. some (cons v.0 vs.0, vs.1))) z
            (rw (parse_items, x) at e) in
        let (vs, q, g) = bind-some (parse_items n v.1) (λ vs. some (cons v.0 vs.0, vs.1)) z f in
        let (same, json) = parse_value_sound n (t ∷ ts) v p in
        let (rest, more) = parse_items_sound n v.1 vs q in
        items_read (t ∷ ts) vs.1 (cons v.0 vs.0) z g
          (same
            ∙ ap (λ (s : List Token). tokens v.0 ++ s) rest
            ∙ sym (append_assoc (tokens v.0) (item_tokens vs.0) vs.1))
          (json, more)
  ]

  parse_fields_sound :
      (n : ℕ) (ks : List Text) (ts : List Token) (z : Fields × List Token)
      → parse_fields n ks ts ≡ some z
      → (ts ≡ field_tokens z.0 ++ z.1) × AreNew ks z.0
  parse_fields_sound zero ks ts z e = absurd (cc e)
  parse_fields_sound (suc n) ks [] z e = absurd (cc e)
  parse_fields_sound (suc n) ks (Token.close_object ∷ ts) z e =
      fields_read ks (Token.close_object ∷ ts) ts end z e refl tt
  parse_fields_sound (suc n) ks (Token.of_string k ∷ ts) z e = elim (Bool-cases (seen k ks)) [
    | inl x ↦ absurd (cc (rw (parse_fields, x) at e))
    | inr x ↦
        let (v, p, f) =
          bind-some (parse_value n ts)
            (λ v. parse_fields n (k ∷ ks) v.1 >>= (λ fs. some (field k v.0 fs.0, fs.1))) z
            (rw (parse_fields, x) at e) in
        let (fs, q, g) =
          bind-some (parse_fields n (k ∷ ks) v.1) (λ fs. some (field k v.0 fs.0, fs.1)) z f in
        let (same, json) = parse_value_sound n ts v p in
        let (rest, more) = parse_fields_sound n (k ∷ ks) v.1 fs q in
        fields_read ks (Token.of_string k ∷ ts) fs.1 (field k v.0 fs.0) z g
          (ap (λ (s : List Token). Token.of_string k ∷ s)
            (same
              ∙ ap (λ (s : List Token). tokens v.0 ++ s) rest
              ∙ sym (append_assoc (tokens v.0) (field_tokens fs.0) fs.1)))
          (seen-absent k ks x, json, more)
  ]
  parse_fields_sound (suc n) ks (Token.of_null ∷ ts) z e = absurd (cc e)
  parse_fields_sound (suc n) ks (Token.of_bool b ∷ ts) z e = absurd (cc e)
  parse_fields_sound (suc n) ks (Token.of_number t ∷ ts) z e = absurd (cc e)
  parse_fields_sound (suc n) ks (Token.open_array ∷ ts) z e = absurd (cc e)
  parse_fields_sound (suc n) ks (Token.open_object ∷ ts) z e = absurd (cc e)
  parse_fields_sound (suc n) ks (Token.close_array ∷ ts) z e = absurd (cc e)
