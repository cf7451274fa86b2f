-- ===== src/Canonical/Encode/Texts.antt =====
-- The texts of the members of an object, sorted before they are written or after: the sort of
-- `encodeValue` of internal/canonical/canonical.go on either side.
use nodary.Prelude.{
  ◌>>=◌, bind-some, ◌≡◌, refl, subst, Option, some, List, [], ◌∷◌, inl, inr, Bool-cases,
}
use nodary.Canonical.Text.{Text}
use nodary.Canonical.Order.{less_utf16, insert, sort}
use nodary.Canonical.Encode.{Value, Fields, end, field}
use nodary.Canonical.Encode.Normal.{insert_field, sort_fields}

module _ (text : Value → Option Text) where
  unfoldable pub texts : Fields → Option (List (Text × Text))
  texts end = some []
  texts (field k v fs) = do t ← text v; ms ← texts fs; some ((k, t) ∷ ms)

  texts-insert_field :
      (k t : Text) (v : Value) (fs : Fields) (ms : List (Text × Text))
      → text v ≡ some t
      → texts fs ≡ some ms
      → texts (insert_field k v fs) ≡ some (insert (k, t) ms)
  unfolding texts insert_field insert
  texts-insert_field k t v end ms p e =
      subst (λ (z : List (Text × Text)). texts (field k v end) ≡ some (insert (k, t) z)) {x = []}
        {y = ms} (cc e) (rw p refl)
  texts-insert_field k t v (field l w fs) ms p e =
      let (a, q, f) = bind-some (text w) (λ t. texts fs >>= (λ ms. some ((l, t) ∷ ms))) ms e in
      let (b, r, g) = bind-some (texts fs) (λ ms. some ((l, a) ∷ ms)) ms f in
      subst
        (λ (z : List (Text × Text)).
          texts (insert_field k v (field l w fs)) ≡ some (insert (k, t) z))
        {x = (l, a) ∷ b} {y = ms} (cc g)
        (elim (Bool-cases (less_utf16 l k)) [
          | inl x ↦ rw (x, q, texts-insert_field k t v fs b p r) refl
          | inr x ↦ rw (x, p, q, r) refl
        ])

  pub texts-sort_fields :
      (fs : Fields) (ms : List (Text × Text))
      → texts fs ≡ some ms
      → texts (sort_fields fs) ≡ some (sort ms)
  unfolding texts sort_fields sort
  texts-sort_fields end ms e =
      subst (λ (z : List (Text × Text)). texts end ≡ some (sort z)) {x = []} {y = ms} (cc e) refl
  texts-sort_fields (field l w fs) ms e =
      let (a, q, f) = bind-some (text w) (λ t. texts fs >>= (λ ms. some ((l, t) ∷ ms))) ms e in
      let (b, r, g) = bind-some (texts fs) (λ ms. some ((l, a) ∷ ms)) ms f in
      subst (λ (z : List (Text × Text)). texts (insert_field l w (sort_fields fs)) ≡ some (sort z))
        {x = (l, a) ∷ b} {y = ms} (cc g)
        (texts-insert_field l a w (sort_fields fs) (sort b) q (texts-sort_fields fs b r))
