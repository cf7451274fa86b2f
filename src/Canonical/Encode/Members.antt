-- ===== src/Canonical/Encode/Members.antt =====
-- The order in which a map yields the members of an object, for `encodeValue` of
-- internal/canonical/canonical.go.
use nodary.Prelude.{
  ◌>>=◌, bind-some, ◌≡◌, ◌≢◌, ◌++◌, refl, subst, Option, none, some, List, [], ◌∷◌, All, true,
}
use nodary.Canonical.Text.{Text, valid_string}
use nodary.Canonical.Order.{sort}
use nodary.Canonical.Order.Sorted.{Shuffle, stay, swap, skip, chain, AreKeys, sort-Shuffle, Differ}
use nodary.Canonical.Encode.{
  Value, Fields, obj, end, field, Numerals, join, encode_value, encode_fields,
}

-- The same members, in another order.
pub data Rearranged : Fields → Fields → Type 0 where
  same : (fs : Fields) → Rearranged fs fs
  exchange :
      (k l : Text) (v w : Value) (fs : Fields)
      → Rearranged (field k v (field l w fs)) (field l w (field k v fs))
  below :
      (k : Text) (v : Value) {fs gs : Fields}
      → Rearranged fs gs
      → Rearranged (field k v fs) (field k v gs)
  after : {fs gs hs : Fields} → Rearranged fs gs → Rearranged gs hs → Rearranged fs hs

-- The keys of a map: valid strings, no two the same.
abbrev HasNo : Text → Fields → Type 0
HasNo k end = Unit
HasNo k (field l v fs) = (k ≢ l) × HasNo k fs

abbrev pub IsMap : Fields → Type 0
IsMap end = Unit
IsMap (field k v fs) = (valid_string k ≡ true) × HasNo k fs × IsMap fs

-- Both fail, or both yield the same texts in another order.
abbrev Alike : Option (List (Text × Text)) → Option (List (Text × Text)) → Type 0
Alike none none = Unit
Alike (some ms) (some ms') = Shuffle ms ms'
Alike _ _ = ⊥

Alike-refl : (o : Option (List (Text × Text))) → Alike o o
Alike-refl none = tt
Alike-refl (some ms) = stay ms

Alike-trans : (o p q : Option (List (Text × Text))) → Alike o p → Alike p q → Alike o q
Alike-trans none none none a b = tt
Alike-trans (some x) (some y) (some z) a b = chain a b
Alike-trans none none (some z) a b = absurd b
Alike-trans none (some y) q a b = absurd a
Alike-trans (some x) none q a b = absurd a
Alike-trans (some x) (some y) none a b = absurd b

put : Text → Option Text → Option (List (Text × Text)) → Option (List (Text × Text))
put k o p = o >>= (λ t. p >>= (λ ms. some ((k, t) ∷ ms)))

Alike-put :
    (k : Text) (o : Option Text) (p q : Option (List (Text × Text)))
    → Alike p q
    → Alike (put k o p) (put k o q)
unfolding put
Alike-put k none p q a = tt
Alike-put k (some t) none none a = tt
Alike-put k (some t) none (some y) a = absurd a
Alike-put k (some t) (some x) none a = absurd a
Alike-put k (some t) (some x) (some y) a = skip (k, t) a

Alike-exchange :
    (k l : Text) (a b : Option Text) (p : Option (List (Text × Text)))
    → Alike (put k a (put l b p)) (put l b (put k a p))
unfolding put
Alike-exchange k l none none p = tt
Alike-exchange k l none (some u) none = tt
Alike-exchange k l none (some u) (some x) = tt
Alike-exchange k l (some t) none p = tt
Alike-exchange k l (some t) (some u) none = tt
Alike-exchange k l (some t) (some u) (some x) = swap (k, t) (l, u) x

encode_fields-Alike :
    (m : Numerals) {fs gs : Fields}
    → Rearranged fs gs
    → Alike (encode_fields m fs) (encode_fields m gs)
unfolding encode_fields put
encode_fields-Alike m (Rearranged.same fs) = Alike-refl (encode_fields m fs)
encode_fields-Alike m (Rearranged.exchange k l v w fs) =
    Alike-exchange k l (encode_value m v) (encode_value m w) (encode_fields m fs)
encode_fields-Alike m (Rearranged.below k v {fs = fs} {gs = gs} r) =
    Alike-put k (encode_value m v) (encode_fields m fs) (encode_fields m gs)
      (encode_fields-Alike m r)
encode_fields-Alike m (Rearranged.after {fs = fs} {gs = gs} {hs = hs} r s) =
    Alike-trans (encode_fields m fs) (encode_fields m gs) (encode_fields m hs)
      (encode_fields-Alike m r) (encode_fields-Alike m s)

pub encode_fields-Differ :
    (m : Numerals) (k t : Text) (fs : Fields) (ms : List (Text × Text))
    → HasNo k fs
    → encode_fields m fs ≡ some ms
    → All (Differ (k, t)) ms
unfolding encode_fields
encode_fields-Differ m k t end ms h e =
    subst (λ (z : List (Text × Text)). All (Differ (k, t)) z) {x = []} {y = ms} (cc e) tt
encode_fields-Differ m k t (field l v fs) ms (d, h) e =
    let (a, p, f) =
      bind-some (encode_value m v) (λ u. encode_fields m fs >>= (λ ms. some ((l, u) ∷ ms))) ms e in
    let (b, q, g) = bind-some (encode_fields m fs) (λ ms. some ((l, a) ∷ ms)) ms f in
    subst (λ (z : List (Text × Text)). All (Differ (k, t)) z) {x = (l, a) ∷ b} {y = ms} (cc g)
      (d, encode_fields-Differ m k t fs b h q)

pub encode_fields-AreKeys :
    (m : Numerals) (fs : Fields) (ms : List (Text × Text))
    → IsMap fs
    → encode_fields m fs ≡ some ms
    → AreKeys ms
unfolding encode_fields
encode_fields-AreKeys m end ms h e =
    subst (λ (z : List (Text × Text)). AreKeys z) {x = []} {y = ms} (cc e) tt
encode_fields-AreKeys m (field l v fs) ms (x, d, h) e =
    let (a, p, f) =
      bind-some (encode_value m v) (λ u. encode_fields m fs >>= (λ ms. some ((l, u) ∷ ms))) ms e in
    let (b, q, g) = bind-some (encode_fields m fs) (λ ms. some ((l, a) ∷ ms)) ms f in
    subst (λ (z : List (Text × Text)). AreKeys z) {x = (l, a) ∷ b} {y = ms} (cc g)
      (x, encode_fields-Differ m l a fs b d q, encode_fields-AreKeys m fs b h q)

write : Option (List (Text × Text)) → Option Text
write o = o >>= (λ ms. join true (sort ms) >>= (λ t. some (b'{' ∷ (t ++ b'}' ∷ []))))

write-Alike :
    (o p : Option (List (Text × Text)))
    → ((ms : List (Text × Text)) → o ≡ some ms → AreKeys ms)
    → Alike o p
    → write o ≡ write p
unfolding write
write-Alike none none h a = refl
write-Alike (some ms) (some ms') h a = rw (sort-Shuffle a (h ms refl)) refl
write-Alike none (some y) h a = absurd a
write-Alike (some x) none h a = absurd a

-- A map whose keys are valid strings, no two the same, is written the same in whichever order it yields
-- its members, a refusal included.
pub encode_value-Rearranged :
    (m : Numerals) (fs gs : Fields)
    → IsMap fs
    → Rearranged fs gs
    → encode_value m (obj fs) ≡ encode_value m (obj gs)
unfolding encode_value write
encode_value-Rearranged m fs gs h r =
    write-Alike (encode_fields m fs) (encode_fields m gs)
      (λ ms e. encode_fields-AreKeys m fs ms h e) (encode_fields-Alike m r)
