-- ===== src/Canonical/Encode/RoundTrip/Pieces.antt =====
-- The texts of strings, numbers, items and members, read back, for the texts that `encodeValue` of
-- internal/canonical/canonical.go is put together from.
use nodary.Prelude.{
  ◌>>=◌, bind-some, ℕ, zero, suc, ◌+◌, ◌≤◌, ◌<◌, ◌≡◌, refl, sym, ap, ◌∙◌, subst, Bool, true, false,
  Option, some, List, [], ◌∷◌, ◌++◌, inl, inr, Bool-cases, arith, length, length-append,
}
use mathlib.Core.List.{append_assoc}
use nodary.Canonical.Text.{Text, quote, write_string}
use nodary.Canonical.Text.Read.{read_text-write_string}
use nodary.Canonical.Number.Chars.{IsNumeral, is_numeral}
use nodary.Canonical.Order.{less_utf16, insert, sort}
use nodary.Canonical.Encode.{
  Value, Items, Fields, str, literal, nil, cons, end, field, comma_after, join,
}
use nodary.Canonical.Encode.Read.{
  read_value, read_items, read_fields, Stops, Starts, read_value-string, read_value-number,
  read_items-nil, read_items-cons, read_fields-end, read_fields-field,
}
use nodary.Canonical.Encode.Normal.{number, insert_field, sort_fields}

-- A text that is read as a value, whatever may follow it.
abbrev pub Reads : Text → Value → Type 0
Reads t v =
    (n : ℕ) (rest : Text) → length t ≤ n → Stops rest → read_value n (t ++ rest) ≡ some (v, rest)

abbrev pub ReadsAs : Text → Value → Type 0
ReadsAs t v = Starts t × Reads t v

Starts-length : (t : Text) → Starts t → 0 < length t
Starts-length [] s = absurd s
Starts-length (c ∷ t) s = omega arith

-- The text of items that are not the first does not go on a number.
abbrev pub Closes : Bool → Text → Type 0
Closes true t = Unit
Closes false t = Stops t

pub Closes-nil : (first : Bool) → Closes first []
Closes-nil true = tt
Closes-nil false = tt

pub Closes-comma : (first : Bool) (t : Text) → Closes first (comma_after first ++ t)
Closes-comma true t = tt
Closes-comma false t = refl

Stops-append :
    (t : Text) (c : ℕ) (rest : Text) → Stops t → is_numeral c ≡ false → Stops (t ++ (c ∷ rest))
Stops-append [] c rest s e = e
Stops-append (d ∷ t) c rest s e = s

-- A text that is read as items, and as members, up to the bracket that closes them.
abbrev pub ReadsItems : Bool → Text → Items → Type 0
ReadsItems first t vs =
    (n : ℕ) (rest : Text) → length t < n → read_items n first (t ++ (b']' ∷ rest)) ≡ some (vs, rest)

abbrev pub ReadsFields : Bool → Text → Fields → Type 0
ReadsFields first t fs =
    (n : ℕ) (rest : Text)
    → length t < n
    → read_fields n first (t ++ (b'}' ∷ rest)) ≡ some (fs, rest)

-- The members of an object with the texts of their values.
abbrev pub Match : Fields → List (Text × Text) → Type 0
Match end [] = Unit
Match (field k v fs) ((l, t) ∷ ms) = (k ≡ l) × ReadsAs t v × Match fs ms
Match _ _ = ⊥

Match-insert :
    (k : Text) (v : Value) (t : Text) (fs : Fields) (ms : List (Text × Text))
    → ReadsAs t v
    → Match fs ms
    → Match (insert_field k v fs) (insert (k, t) ms)
unfolding insert_field insert
Match-insert k v t end [] r h = (refl, r, tt)
Match-insert k v t end (x ∷ ms) r h = absurd h
Match-insert k v t (field l w fs) [] r h = absurd h
Match-insert k v t (field l w fs) ((l', u) ∷ ms) r (e, s, h) = elim (Bool-cases (less_utf16 l' k)) [
  | inl x ↦
      let y = ap (λ (j : Text). less_utf16 j k) e ∙ x in
      rw (x, y) (e, s, Match-insert k v t fs ms r h)
  | inr x ↦ let y = ap (λ (j : Text). less_utf16 j k) e ∙ x in rw (x, y) (refl, r, (e, s, h))
]

pub Match-sort :
    (fs : Fields) (ms : List (Text × Text)) → Match fs ms → Match (sort_fields fs) (sort ms)
unfolding sort_fields sort
Match-sort end [] h = tt
Match-sort end (x ∷ ms) h = absurd h
Match-sort (field k v fs) [] h = absurd h
Match-sort (field k v fs) ((l, t) ∷ ms) (e, r, h) =
    subst (λ (j : Text). Match (insert_field k v (sort_fields fs)) (insert (j, t) (sort ms))) e
      (Match-insert k v t (sort_fields fs) (sort ms) r (Match-sort fs ms h))

pub Reads-string : (s t : Text) → write_string s ≡ some t → ReadsAs t (str s)
Reads-string s t e = (starts, read)
  where
    starts : Starts t
    starts =
        let (u, q, _) = read_text-write_string s t [] (length t) e (omega arith) in
        subst (λ (w : Text). Starts w) {x = quote ∷ u} {y = t} (sym q) refl

    read : Reads t (str s)
    read zero rest h d =
        let (u, q, _) = read_text-write_string s t rest zero e (omega (arith, h)) in
        absurd (omega (arith, h, ap length q))
    read (suc n) rest h d =
        let (u, q, r) = read_text-write_string s t rest n e h in
        subst (λ (w : Text). read_value (suc n) (w ++ rest) ≡ some (str s, rest)) {x = quote ∷ u}
          {y = t} (sym q) (read_value-string n s (u ++ rest) rest r)

Reads-number : (t : Text) → IsNumeral t → ReadsAs t (literal t)
Reads-number [] (a, p) = absurd (omega (arith, p))
Reads-number (c ∷ t) ((e, a), p) = (ground (arith, e), read)
  where
    read : Reads (c ∷ t) (literal (c ∷ t))
    read zero rest h s = absurd (omega (arith, h))
    read (suc n) rest h s = read_value-number n (c ∷ t) rest (e, a) p s

pub number-IsNumeral :
    (o : Option Text) (t : Text) → o ≡ some t → IsNumeral t → ReadsAs t (number o)
number-IsNumeral o t e h =
    subst (λ (q : Option Text). ReadsAs t (number q)) {x = some t} {y = o} (sym e)
      (Reads-number t h)

pub ReadsItems-nil : (first : Bool) → ReadsItems first [] nil
ReadsItems-nil first zero rest h = absurd (omega (arith, h))
ReadsItems-nil first (suc n) rest h = read_items-nil n first rest

pub ReadsItems-cons :
    (first : Bool) (t u : Text) (v : Value) (vs : Items)
    → ReadsAs t v
    → Stops u
    → ReadsItems false u vs
    → ReadsItems first (comma_after first ++ (t ++ u)) (cons v vs)
ReadsItems-cons first t u v vs (s, r) d q zero rest h = absurd (omega (arith, h))
ReadsItems-cons first t u v vs (s, r) d q (suc n) rest h =
    let l : length t + length u < suc n =
      omega (arith, h, length-append {0} (comma_after first) (t ++ u), length-append {0} t u) in
    let p = Starts-length t s in
    let more = u ++ (b']' ∷ rest) in
    let value = r n more (omega (arith, l)) (Stops-append u b']' rest d refl) in
    rw (append_assoc (comma_after first) (t ++ u) (b']' ∷ rest), append_assoc t u (b']' ∷ rest))
      (read_items-cons n first v vs t more rest s value (q n rest (omega (arith, l, p))))

ReadsFields-end : (first : Bool) → ReadsFields first [] end
ReadsFields-end first zero rest h = absurd (omega (arith, h))
ReadsFields-end first (suc n) rest h = read_fields-end n first rest

ReadsFields-field :
    (first : Bool) (k name t u : Text) (v : Value) (fs : Fields)
    → write_string k ≡ some name
    → ReadsAs t v
    → Stops u
    → ReadsFields false u fs
    → ReadsFields first (comma_after first ++ (name ++ (b':' ∷ (t ++ u)))) (field k v fs)
ReadsFields-field first k name t u v fs e (s, r) d q zero rest h = absurd (omega (arith, h))
ReadsFields-field first k name t u v fs e (s, r) d q (suc n) rest h =
    let l : length name + suc (length t + length u) < suc n = omega (
      arith,
      h,
      length-append {0} (comma_after first) (name ++ (b':' ∷ (t ++ u))),
      length-append {0} name (b':' ∷ (t ++ u)),
      length-append {0} t u,
    ) in
    let more = u ++ (b'}' ∷ rest) in
    let value = r n more (omega (arith, l)) (Stops-append u b'}' rest d refl) in
    let (w, x, key) = read_text-write_string k name (b':' ∷ (t ++ more)) n e (omega (arith, l)) in
    let after = q n rest (omega (arith, l)) in
    rw
      (
        append_assoc (comma_after first) (name ++ (b':' ∷ (t ++ u))) (b'}' ∷ rest),
        append_assoc name (b':' ∷ (t ++ u)) (b'}' ∷ rest),
        append_assoc t u (b'}' ∷ rest),
      )
      (subst
        (λ (z : Text).
          read_fields (suc n) first (comma_after first ++ (z ++ (b':' ∷ (t ++ more))))
          ≡ some (field k v fs, rest))
        {x = quote ∷ w} {y = name} (sym x)
        (read_fields-field n first k v fs w t more rest key value after))

join-Stops : (ms : List (Text × Text)) (t : Text) → join false ms ≡ some t → Stops t
unfolding join
join-Stops [] t e = subst (λ (u : Text). Stops u) {x = []} {y = t} (cc e) tt
join-Stops ((k, u) ∷ ms) t e =
    let (name, p, f) =
      bind-some (write_string k)
        (λ name.
          join false ms >>= (λ rest. some (comma_after false ++ (name ++ (b':' ∷ (u ++ rest))))))
        t e in
    let (rest, q, g) =
      bind-some (join false ms) (λ rest. some (comma_after false ++ (name ++ (b':' ∷ (u ++ rest)))))
        t f in
    subst (λ (z : Text). Stops z) {x = comma_after false ++ (name ++ (b':' ∷ (u ++ rest)))} {y = t}
      (cc g) refl

pub join-ReadsFields :
    (first : Bool) (fs : Fields) (ms : List (Text × Text)) (t : Text)
    → Match fs ms
    → join first ms ≡ some t
    → ReadsFields first t fs
unfolding join
join-ReadsFields first end [] t h e =
    subst (λ (u : Text). ReadsFields first u end) {x = []} {y = t} (cc e) (ReadsFields-end first)
join-ReadsFields first end (x ∷ ms) t h e = absurd h
join-ReadsFields first (field k v fs) [] t h e = absurd h
join-ReadsFields first (field k v fs) ((l, u) ∷ ms) t (same, r, h) e =
    let (name, p, f) =
      bind-some (write_string l)
        (λ name.
          join false ms >>= (λ rest. some (comma_after first ++ (name ++ (b':' ∷ (u ++ rest))))))
        t e in
    let (rest, q, g) =
      bind-some (join false ms) (λ rest. some (comma_after first ++ (name ++ (b':' ∷ (u ++ rest)))))
        t f in
    subst (λ (z : Text). ReadsFields first z (field k v fs))
      {x = comma_after first ++ (name ++ (b':' ∷ (u ++ rest)))} {y = t} (cc g)
      (ReadsFields-field first k name u rest v fs (ap write_string same ∙ p) r
        (join-Stops ms rest q) (join-ReadsFields false fs ms rest h q))
