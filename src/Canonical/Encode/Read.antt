-- ===== src/Canonical/Encode/Read.antt =====
-- A reader of what `encodeValue` of internal/canonical/canonical.go writes.
use nodary.Prelude.{
  ◌>>=◌, ℕ, zero, suc, ◌<◌, ◌≡◌, refl, Bool, true, false, ◌==◌, Option, none, some, [], ◌∷◌, ◌++◌,
  if◌then◌else◌, arith, length, All,
}
use nodary.Canonical.Text.{Text, quote}
use nodary.Canonical.Text.Read.{read_text}
use nodary.Canonical.Number.Chars.{is_numeral}
use nodary.Canonical.Encode.{
  Value, Items, Fields, null, bool, str, literal, arr, obj, nil, cons, end, field, comma_after,
}

-- What a value starts with.
data Kind : Type 0 where
  of_null : Kind
  of_true : Kind
  of_false : Kind
  of_string : Kind
  of_array : Kind
  of_object : Kind
  of_number : Kind

kind : ℕ → Kind
kind c =
    if c == b'n'
    then of_null
    else if c == b't'
    then of_true
    else if c == b'f'
    then of_false
    else if c == b'"'
    then of_string
    else if c == b'['
    then of_array
    else if c == b'{'
    then of_object
    else of_number

-- What follows a text that is expected.
abbrev pub expect : Text → Text → Option Text
expect [] s = some s
expect (c ∷ w) [] = none
expect (c ∷ w) (d ∷ s) = elim (c == d) [ true ↦ expect w s | false ↦ none ]

read_number : Text → Text × Text
read_number [] = ([], [])
read_number (c ∷ s) = elim (is_numeral c) [
  | true ↦ (c ∷ (read_number s).0, (read_number s).1)
  | false ↦ ([], c ∷ s)
]

-- A comma, before all but the first.
abbrev pub after_comma : Bool → Text → Option Text
after_comma first s = expect (comma_after first) s

-- The value a text starts with, and what follows it. The items of an array and the members of an
-- object are read up to their closing bracket. Every step on a text takes one unit of fuel.
mutual
  pub read_value : ℕ → Text → Option (Value × Text)
  read_value zero s = none
  read_value (suc fuel) [] = none
  read_value (suc fuel) (c ∷ s) = elim (kind c) [
    | of_null ↦ do rest ← expect (b'u' ∷ b'l' ∷ b'l' ∷ []) s; some (null, rest)
    | of_true ↦ do rest ← expect (b'r' ∷ b'u' ∷ b'e' ∷ []) s; some (bool true, rest)
    | of_false ↦ do rest ← expect (b'a' ∷ b'l' ∷ b's' ∷ b'e' ∷ []) s; some (bool false, rest)
    | of_string ↦ do r ← read_text fuel s; some (str r.0, r.1)
    | of_array ↦ do r ← read_items fuel true s; some (arr r.0, r.1)
    | of_object ↦ do r ← read_fields fuel true s; some (obj r.0, r.1)
    | of_number ↦ some (literal (read_number (c ∷ s)).0, (read_number (c ∷ s)).1)
  ]

  pub read_items : ℕ → Bool → Text → Option (Items × Text)
  read_items zero first s = none
  read_items (suc fuel) first [] = none
  read_items (suc fuel) first (c ∷ s) = elim (c == b']') [
    | true ↦ some (nil, s)
    | false ↦ do
      r ← after_comma first (c ∷ s)
      v ← read_value fuel r
      vs ← read_items fuel false v.1
      some (cons v.0 vs.0, vs.1)
  ]

  pub read_fields : ℕ → Bool → Text → Option (Fields × Text)
  read_fields zero first s = none
  read_fields (suc fuel) first [] = none
  read_fields (suc fuel) first (c ∷ s) = elim (c == b'}') [
    | true ↦ some (end, s)
    | false ↦ do
      r ← after_comma first (c ∷ s)
      q ← expect (quote ∷ []) r
      k ← read_text fuel q
      w ← expect (b':' ∷ []) k.1
      v ← read_value fuel w
      fs ← read_fields fuel false v.1
      some (field k.0 v.0 fs.0, fs.1)
  ]

-- What may follow a number.
abbrev pub Stops : Text → Type 0
Stops [] = Unit
Stops (c ∷ s) = is_numeral c ≡ false

read_number-append :
    (t rest : Text)
    → All (λ c. is_numeral c ≡ true) t
    → Stops rest
    → read_number (t ++ rest) ≡ (t, rest)
unfolding read_number
read_number-append [] [] a s = refl
read_number-append [] (c ∷ rest) a s = rw (read_number, s) refl
read_number-append (c ∷ t) rest (e, a) s = rw (read_number, e, read_number-append t rest a s) refl

kind-numeral : (c : ℕ) → is_numeral c ≡ true → kind c ≡ of_number
unfolding kind
kind-numeral c e = ground (arith, e)

pub read_value-null :
    (n : ℕ) (rest : Text)
    → read_value (suc n) ((b'n' ∷ b'u' ∷ b'l' ∷ b'l' ∷ []) ++ rest) ≡ some (null, rest)
unfolding read_value kind
read_value-null n rest = refl

pub read_value-true :
    (n : ℕ) (rest : Text)
    → read_value (suc n) ((b't' ∷ b'r' ∷ b'u' ∷ b'e' ∷ []) ++ rest) ≡ some (bool true, rest)
unfolding read_value kind
read_value-true n rest = refl

pub read_value-false :
    (n : ℕ) (rest : Text)
    → read_value (suc n) ((b'f' ∷ b'a' ∷ b'l' ∷ b's' ∷ b'e' ∷ []) ++ rest) ≡ some (bool false, rest)
unfolding read_value kind
read_value-false n rest = refl

pub read_value-string :
    (n : ℕ) (s u rest : Text)
    → read_text n u ≡ some (s, rest)
    → read_value (suc n) (quote ∷ u) ≡ some (str s, rest)
unfolding read_value kind
read_value-string n s u rest e = rw e refl

pub read_value-array :
    (n : ℕ) (vs : Items) (u rest : Text)
    → read_items n true u ≡ some (vs, rest)
    → read_value (suc n) (b'[' ∷ u) ≡ some (arr vs, rest)
unfolding read_value kind
read_value-array n vs u rest e = rw e refl

pub read_value-object :
    (n : ℕ) (fs : Fields) (u rest : Text)
    → read_fields n true u ≡ some (fs, rest)
    → read_value (suc n) (b'{' ∷ u) ≡ some (obj fs, rest)
unfolding read_value kind
read_value-object n fs u rest e = rw e refl

pub read_value-number :
    (n : ℕ) (t rest : Text)
    → All (λ c. is_numeral c ≡ true) t
    → 0 < length t
    → Stops rest
    → read_value (suc n) (t ++ rest) ≡ some (literal t, rest)
unfolding read_value
read_value-number n [] rest a h s = absurd (omega (arith, h))
read_value-number n (c ∷ t) rest (e, a) h s =
    rw (read_value, kind-numeral c e, read_number-append (c ∷ t) rest (e, a) s) refl

-- A text that does not start with a closing bracket.
abbrev pub Starts : Text → Type 0
Starts [] = ⊥
Starts (c ∷ s) = (c == b']') ≡ false

pub read_items-nil :
    (n : ℕ) (first : Bool) (rest : Text) → read_items (suc n) first (b']' ∷ rest) ≡ some (nil, rest)
unfolding read_items
read_items-nil n first rest = refl

pub read_items-cons :
    (n : ℕ) (first : Bool) (v : Value) (vs : Items) (t more rest : Text)
    → Starts t
    → read_value n (t ++ more) ≡ some (v, more)
    → read_items n false more ≡ some (vs, rest)
    → read_items (suc n) first (comma_after first ++ (t ++ more)) ≡ some (cons v vs, rest)
unfolding read_items
read_items-cons n first v vs [] more rest s e f = absurd s
read_items-cons n true v vs (c ∷ t) more rest s e f = rw (read_items, s, e, f) refl
read_items-cons n false v vs (c ∷ t) more rest s e f = rw (e, f) refl

pub read_fields-end :
    (n : ℕ) (first : Bool) (rest : Text)
    → read_fields (suc n) first (b'}' ∷ rest) ≡ some (end, rest)
unfolding read_fields
read_fields-end n first rest = refl

pub read_fields-field :
    (n : ℕ) (first : Bool) (k : Text) (v : Value) (fs : Fields) (u t more rest : Text)
    → read_text n (u ++ (b':' ∷ (t ++ more))) ≡ some (k, b':' ∷ (t ++ more))
    → read_value n (t ++ more) ≡ some (v, more)
    → read_fields n false more ≡ some (fs, rest)
    → read_fields (suc n) first (comma_after first ++ (quote ∷ (u ++ (b':' ∷ (t ++ more)))))
      ≡ some (field k v fs, rest)
unfolding read_fields
read_fields-field n true k v fs u t more rest d e f = rw (d, e, f) refl
read_fields-field n false k v fs u t more rest d e f = rw (d, e, f) refl
