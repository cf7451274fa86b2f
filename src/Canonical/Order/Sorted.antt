-- ===== src/Canonical/Order/Sorted.antt =====
-- The order on keys of internal/canonical/string.go, and the sort by it.
use nodary.Prelude.{
  ℕ, ◌≡◌, ◌≢◌, refl, sym, ap, ◌∙◌, true, false, List, [], ◌∷◌, ◌++◌, inl, inr, All, Bool-cases,
  arith,
}
use nodary.Canonical.Text.{Text, is_scalar, valid_string}
use nodary.Canonical.Order.{units_of, utf16, less_units, less_utf16, insert, sort}

less_units-asym : (a b : List ℕ) → less_units a b ≡ true → less_units b a ≡ false
unfolding less_units
less_units-asym [] [] e = refl
less_units-asym [] (b ∷ bs) e = refl
less_units-asym (a ∷ us) [] e = absurd (cc e)
less_units-asym (a ∷ us) (b ∷ bs) e = ground (arith, e, less_units-asym us bs)

-- Negative transitivity: what is not above `x` is below what `x` is below.
less_units-le_lt :
    (x a b : List ℕ) → less_units x a ≡ false → less_units x b ≡ true → less_units a b ≡ true
unfolding less_units
less_units-le_lt [] [] b e h = h
less_units-le_lt [] (a ∷ us) b e h = absurd (cc e)
less_units-le_lt (x ∷ xs) [] [] e h = absurd (cc h)
less_units-le_lt (x ∷ xs) [] (b ∷ bs) e h = refl
less_units-le_lt (x ∷ xs) (a ∷ us) [] e h = absurd (cc h)
less_units-le_lt (x ∷ xs) (a ∷ us) (b ∷ bs) e h = ground (arith, e, h, less_units-le_lt xs us bs)

less_units-total : (a b : List ℕ) → less_units a b ≡ false → less_units b a ≡ false → a ≡ b
unfolding less_units
less_units-total [] [] e h = refl
less_units-total [] (b ∷ bs) e h = absurd (cc e)
less_units-total (a ∷ us) [] e h = absurd (cc h)
less_units-total (a ∷ us) (b ∷ bs) e h =
    let same : a ≡ b = ground (arith, e, h) in
    let le : less_units us bs ≡ false = ground (arith, e, same) in
    let ge : less_units bs us ≡ false = ground (arith, h, same) in
    cc (same, less_units-total us bs le ge)

units_of-injective :
    (r s : ℕ) (a b : List ℕ)
    → is_scalar r ≡ true
    → is_scalar s ≡ true
    → units_of r ++ a ≡ units_of s ++ b
    → (r ≡ s) × (a ≡ b)
unfolding units_of is_scalar
units_of-injective r s a b h k e = ground arith

nonempty : (s : ℕ) (b : List ℕ) → [] ≢ units_of s ++ b
unfolding units_of
nonempty s b e = ground (arith, e)

utf16-injective :
    (a b : Text) → valid_string a ≡ true → valid_string b ≡ true → utf16 a ≡ utf16 b → a ≡ b
unfolding utf16 valid_string
utf16-injective [] [] h k e = refl
utf16-injective [] (s ∷ b) h k e = absurd (nonempty s (utf16 b) e)
utf16-injective (r ∷ a) [] h k e = absurd (nonempty r (utf16 a) (sym e))
utf16-injective (r ∷ a) (s ∷ b) h k e =
    let (same, rest) =
      units_of-injective r s (utf16 a) (utf16 b) (ground (arith, h)) (ground (arith, k)) e in
    cc (same, utf16-injective a b (ground (arith, h)) (ground (arith, k)) rest)

-- What `sort` is given: keys that are valid strings, and distinct.
abbrev Below : Text × Text → Text × Text → Type 0
Below x y = less_utf16 x.0 y.0 ≡ true

abbrev pub Differ : Text × Text → Text × Text → Type 0
Differ x y = x.0 ≢ y.0

abbrev pub IsValid : Text × Text → Type 0
IsValid x = valid_string x.0 ≡ true

Below-asym : (x y : Text × Text) → Below x y → less_utf16 y.0 x.0 ≡ false
unfolding less_utf16
Below-asym x y h = less_units-asym (utf16 x.0) (utf16 y.0) h

Below-le_lt : (x y z : Text × Text) → less_utf16 x.0 y.0 ≡ false → Below x z → Below y z
unfolding less_utf16
Below-le_lt x y z h k = less_units-le_lt (utf16 x.0) (utf16 y.0) (utf16 z.0) h k

Below-total :
    (x y : Text × Text)
    → IsValid x
    → IsValid y
    → Differ x y
    → less_utf16 x.0 y.0 ≡ false
    → Below y x
unfolding less_utf16
Below-total x y v w d h = elim (Bool-cases (less_units (utf16 y.0) (utf16 x.0))) [
  | inl k ↦ k
  | inr k ↦ absurd (d (utf16-injective x.0 y.0 v w (less_units-total (utf16 x.0) (utf16 y.0) h k)))
]

Below-trans : (x y z : Text × Text) → Below x y → Below y z → Below x z
Below-trans x y z h k = elim (Bool-cases (less_utf16 x.0 z.0)) [
  | inl l ↦ l
  | inr l ↦ absurd (cc (Below-asym z y (Below-le_lt x z y l h), k))
]

insert_comm :
    (a b : Text × Text) (ms : List (Text × Text))
    → IsValid a
    → IsValid b
    → Differ a b
    → insert a (insert b ms) ≡ insert b (insert a ms)
unfolding insert
insert_comm a b [] v w d = elim (Bool-cases (less_utf16 a.0 b.0)) [
  | inl l ↦ rw (l, Below-asym a b l) refl
  | inr l ↦ rw (l, Below-total a b v w d l) refl
]
insert_comm a b (x ∷ ms) v w d = elim (Bool-cases (less_utf16 x.0 b.0)) [
  | inl p ↦ elim (Bool-cases (less_utf16 x.0 a.0)) [
    | inl q ↦ rw (p, q, p) (ap (λ (t : List (Text × Text)). x ∷ t) (insert_comm a b ms v w d))
    | inr q ↦ simp (p, q, Below-le_lt x a b q p)
  ]
  | inr p ↦ elim (Bool-cases (less_utf16 x.0 a.0)) [
    | inl q ↦ simp (p, q, Below-le_lt x b a p q)
    | inr q ↦ elim (Bool-cases (less_utf16 a.0 b.0)) [
      | inl l ↦ simp (p, q, l, Below-asym a b l)
      | inr l ↦ simp (p, q, l, Below-total a b v w d l)
    ]
  ]
]

-- The keys of an object: valid strings, no two the same.
abbrev pub AreKeys : List (Text × Text) → Type 0
AreKeys [] = Unit
AreKeys (m ∷ ms) = IsValid m × All (Differ m) ms × AreKeys ms

abbrev pub IsAscending : List (Text × Text) → Type 0
IsAscending [] = Unit
IsAscending (m ∷ ms) = All (λ x. less_utf16 m.0 x.0 ≡ true) ms × IsAscending ms

All-insert :
    (P : Text × Text → Type 0) (m : Text × Text) (ms : List (Text × Text))
    → P m
    → All P ms
    → All P (insert m ms)
unfolding insert
All-insert P m [] p ps = (p, ps)
All-insert P m (x ∷ ms) p (q, ps) = elim (Bool-cases (less_utf16 x.0 m.0)) [
  | inl l ↦ rw l (q, All-insert P m ms p ps)
  | inr l ↦ rw l (p, (q, ps))
]

All-sort : (P : Text × Text → Type 0) (ms : List (Text × Text)) → All P ms → All P (sort ms)
unfolding sort
All-sort P [] ps = ps
All-sort P (m ∷ ms) (p, ps) = All-insert P m (sort ms) p (All-sort P ms ps)

All-Below :
    (m x : Text × Text) (ms : List (Text × Text)) → Below m x → All (Below x) ms → All (Below m) ms
All-Below m x [] h a = tt
All-Below m x (y ∷ ms) h (b, a) = (Below-trans m x y h b, All-Below m x ms h a)

insert-IsAscending :
    (m : Text × Text) (ms : List (Text × Text))
    → IsValid m
    → All IsValid ms
    → All (Differ m) ms
    → IsAscending ms
    → IsAscending (insert m ms)
unfolding insert
insert-IsAscending m [] v w d s = (tt, tt)
insert-IsAscending m (x ∷ ms) v (u, w) (e, d) (below, s) = elim (Bool-cases (less_utf16 x.0 m.0)) [
  | inl l ↦ rw l (All-insert (Below x) m ms l below, insert-IsAscending m ms v w d s)
  | inr l ↦
      let k = Below-total x m u v (λ q. e (sym q)) l in
      rw l ((k, All-Below m x ms k below), (below, s))
]

All-IsValid : (ms : List (Text × Text)) → AreKeys ms → All IsValid ms
All-IsValid [] k = tt
All-IsValid (m ∷ ms) (v, _, k) = (v, All-IsValid ms k)

-- The keys of an object come out in ascending order by UTF-16 code unit, each once.
pub sort-IsAscending : (ms : List (Text × Text)) → AreKeys ms → IsAscending (sort ms)
unfolding sort
sort-IsAscending [] k = tt
sort-IsAscending (m ∷ ms) (v, d, k) =
    insert-IsAscending m (sort ms) v (All-sort IsValid ms (All-IsValid ms k))
      (All-sort (Differ m) ms d) (sort-IsAscending ms k)

-- One arrangement of a list and another, by exchanges of neighbours.
pub data Shuffle : List (Text × Text) → List (Text × Text) → Type 0 where
  stay : (ms : List (Text × Text)) → Shuffle ms ms
  swap : (a b : Text × Text) (ms : List (Text × Text)) → Shuffle (a ∷ b ∷ ms) (b ∷ a ∷ ms)
  skip :
      (a : Text × Text) {ms ms' : List (Text × Text)} → Shuffle ms ms' → Shuffle (a ∷ ms) (a ∷ ms')
  chain : {ms ms' ms'' : List (Text × Text)} → Shuffle ms ms' → Shuffle ms' ms'' → Shuffle ms ms''

All-Shuffle :
    (P : Text × Text → Type 0) {ms ms' : List (Text × Text)} → Shuffle ms ms' → All P ms → All P ms'
All-Shuffle P (Shuffle.stay ms) ps = ps
All-Shuffle P (Shuffle.swap a b ms) (p, (q, ps)) = (q, (p, ps))
All-Shuffle P (Shuffle.skip a s) (p, ps) = (p, All-Shuffle P s ps)
All-Shuffle P (Shuffle.chain s t) ps = All-Shuffle P t (All-Shuffle P s ps)

AreKeys-Shuffle : {ms ms' : List (Text × Text)} → Shuffle ms ms' → AreKeys ms → AreKeys ms'
AreKeys-Shuffle (Shuffle.stay ms) k = k
AreKeys-Shuffle (Shuffle.swap a b ms) (v, (d, e), (w, f, k)) = (w, ((λ q. d (sym q)), f), (v, e, k))
AreKeys-Shuffle (Shuffle.skip a s) (v, d, k) = (v, All-Shuffle (Differ a) s d, AreKeys-Shuffle s k)
AreKeys-Shuffle (Shuffle.chain s t) k = AreKeys-Shuffle t (AreKeys-Shuffle s k)

-- The order in which a map yields its members does not matter.
pub sort-Shuffle : {ms ms' : List (Text × Text)} → Shuffle ms ms' → AreKeys ms → sort ms ≡ sort ms'
unfolding sort
sort-Shuffle (Shuffle.stay ms) k = refl
sort-Shuffle (Shuffle.swap a b ms) (v, (d, e), (w, f, k)) = insert_comm a b (sort ms) v w d
sort-Shuffle (Shuffle.skip a s) (v, d, k) = ap (insert a) (sort-Shuffle s k)
sort-Shuffle (Shuffle.chain s t) k = sort-Shuffle s k ∙ sort-Shuffle t (AreKeys-Shuffle s k)

insert-first : (m : Text × Text) (ms : List (Text × Text)) → All (Below m) ms → insert m ms ≡ m ∷ ms
unfolding insert
insert-first m [] h = refl
insert-first m (x ∷ ms) (b, h) = rw (Below-asym m x b) refl

sort-IsSorted : (ms : List (Text × Text)) → IsAscending ms → sort ms ≡ ms
unfolding sort
sort-IsSorted [] h = refl
sort-IsSorted (m ∷ ms) (b, h) = rw (sort-IsSorted ms h) (insert-first m ms b)

-- A second sort changes nothing.
pub sort-sort : (ms : List (Text × Text)) → AreKeys ms → sort (sort ms) ≡ sort ms
sort-sort ms k = sort-IsSorted (sort ms) (sort-IsAscending ms k)
