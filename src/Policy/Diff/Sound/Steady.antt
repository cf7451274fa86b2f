-- ===== src/Policy/Diff/Sound/Steady.antt =====
-- When a field of the table in internal/policy/diff.go does not loosen, in terms of the setting.
use nodary.Prelude.{
  ℕ, Bool, true, false, List, [], ◌∷◌, ◌≡◌, ◌≢◌, refl, arith, ◌⊎◌, inl, inr, ◌↔◌, ◌≤◌, All,
  Bool-cases, subst,
}
use nodary.Canonical.Text.{Text}
use nodary.Canonical.Number.{text_eq, digits_of}
use nodary.Canonical.Number.Spelled.{text_eq_sound, text_eq_refl, digits_of-injective}
use nodary.Audit.Record.{codes}
use nodary.Policy.{Profile}
use nodary.Policy.Diff.{
  Field, show_bool, show_list, contains, adds_any, allowlist_loosens, denylist_loosens, diff_of,
  loosens, require, allow, floor, ceiling, allowlist_field, denylist_field,
}
use nodary.Policy.Diff.Shown.{any_comma, show_bool-injective, show_list-injective}

-- A setting is shown the same or does not loosen.
abbrev Steady : Profile → Profile → Field → Type 0
Steady a b f = (text_eq (f.show a) (f.show b) ≡ true) ⊎ (f.loosens a b ≡ false)

pub diff_of-Steady :
    (a b : Profile) (fs : List Field) → (loosens (diff_of fs a b) ≡ false) ↔ All (Steady a b) fs
unfolding diff_of loosens
diff_of-Steady a b [] = ((λ h. tt), (λ h. refl))
diff_of-Steady a b (f ∷ fs) =
    let rest = diff_of-Steady a b fs in
    elim (Bool-cases (text_eq (f.show a) (f.show b))) [
      | inl e ↦ ((λ h. (inl e, rest.0 (rw (diff_of, e) at h))), (λ h. rw (diff_of, e, rest.1 h.1)))
      | inr e ↦ (
        (λ h.
            let g = rw (diff_of, e, loosens) at h in
            (inr (ground (arith, g)), rest.0 (ground (arith, g)))),
        (λ h.
            let calm : f.loosens a b ≡ false = or_else e h.0 in
            rw (diff_of, e, loosens, calm, rest.1 h.1)),
      )
    ]
  where
    or_else : {x y : Bool} → x ≡ false → (x ≡ true) ⊎ (y ≡ false) → y ≡ false
    or_else e (inl t) = absurd (cc (e, t))
    or_else e (inr q) = q

-- Where an entry is denied by what is denied, it is.
abbrev pub Included : List Text → List Text → Type 0
Included xs ys = All (λ x. contains ys x ≡ true) xs

adds_any_iff : (old new : List Text) → (adds_any old new ≡ false) ↔ Included new old
unfolding adds_any
adds_any_iff old [] = ((λ h. tt), (λ h. refl))
adds_any_iff old (v ∷ vs) =
    let rest = adds_any_iff old vs in
    (
      (λ h. (ground (arith, h), rest.0 (ground (arith, h)))),
      (λ h. let k = h.0 in ground (arith, k, rest.1 h.1)),
    )

Included-longer : (y : Text) (xs ys : List Text) → Included xs ys → Included xs (y ∷ ys)
unfolding contains
Included-longer y [] ys h = tt
Included-longer y (x ∷ xs) ys h = (let k = h.0 in ground (arith, k), Included-longer y xs ys h.1)

Included-refl : (xs : List Text) → Included xs xs
unfolding contains
Included-refl [] = tt
Included-refl (x ∷ xs) =
    (ground (arith, text_eq_refl x), Included-longer x xs xs (Included-refl xs))

-- What was required stays required; the other way around, nothing is allowed that was not.
abbrev pub Kept : Bool → Bool → Type 0
Kept x y = (x ≡ false) ⊎ (y ≡ true)

-- What an allowlist permits, where an empty one permits all.
abbrev pub Narrower : List Text → List Text → Type 0
Narrower xs ys = (xs ≡ []) ⊎ ((ys ≢ []) × Included ys xs)

pub require-Steady :
    (n : Text) (get : Profile → Bool) (a b : Profile)
    → Steady a b (require n get) ↔ Kept (get a) (get b)
require-Steady n get a b = (there, back)
  where
    there : Steady a b (require n get) → Kept (get a) (get b)
    there (inl e) =
        let same =
          show_bool-injective (get a) (get b)
            (text_eq_sound (show_bool (get a)) (show_bool (get b)) e) in
        ground (arith, same)
    there (inr e) = ground (arith, e)

    back : Kept (get a) (get b) → Steady a b (require n get)
    back k = inr (ground (arith, k))

pub allow-Steady :
    (n : Text) (get : Profile → Bool) (a b : Profile)
    → Steady a b (allow n get) ↔ Kept (get b) (get a)
allow-Steady n get a b = (there, back)
  where
    there : Steady a b (allow n get) → Kept (get b) (get a)
    there (inl e) =
        let same =
          show_bool-injective (get a) (get b)
            (text_eq_sound (show_bool (get a)) (show_bool (get b)) e) in
        ground (arith, same)
    there (inr e) = ground (arith, e)

    back : Kept (get b) (get a) → Steady a b (allow n get)
    back k = inr (ground (arith, k))

pub floor-Steady :
    (n : Text) (get : Profile → ℕ) (a b : Profile) → Steady a b (floor n get) ↔ (get a ≤ get b)
floor-Steady n get a b = (there, λ h. inr (ground (arith, h)))
  where
    there : Steady a b (floor n get) → get a ≤ get b
    there (inl e) =
        let same =
          digits_of-injective (get a) (get b)
            (text_eq_sound (digits_of (get a)) (digits_of (get b)) e) in
        omega (arith, same)
    there (inr e) = ground (arith, e)

pub ceiling-Steady :
    (n : Text) (get : Profile → ℕ) (a b : Profile) → Steady a b (ceiling n get) ↔ (get b ≤ get a)
ceiling-Steady n get a b = (there, λ h. inr (ground (arith, h)))
  where
    there : Steady a b (ceiling n get) → get b ≤ get a
    there (inl e) =
        let same =
          digits_of-injective (get a) (get b)
            (text_eq_sound (digits_of (get a)) (digits_of (get b)) e) in
        omega (arith, same)
    there (inr e) = ground (arith, e)

pub denylist-Steady :
    (a b : Profile)
    → any_comma a.model_origin_denylist ≡ false
    → any_comma b.model_origin_denylist ≡ false
    → Steady a b denylist_field ↔ Included a.model_origin_denylist b.model_origin_denylist
unfolding denylist_loosens
denylist-Steady a b ha hb =
    (there, λ h. inr ((adds_any_iff b.model_origin_denylist a.model_origin_denylist).1 h))
  where
    there : Steady a b denylist_field → Included a.model_origin_denylist b.model_origin_denylist
    there (inl e) =
        let same =
          show_list-injective a.model_origin_denylist b.model_origin_denylist (codes "none denied")
            ha hb
            (text_eq_sound (show_list a.model_origin_denylist (codes "none denied"))
              (show_list b.model_origin_denylist (codes "none denied")) e) in
        subst (λ (z : List Text). Included a.model_origin_denylist z) {x = a.model_origin_denylist}
          {y = b.model_origin_denylist} same (Included-refl a.model_origin_denylist)
    there (inr e) = (adds_any_iff b.model_origin_denylist a.model_origin_denylist).0 e

allowlist_loosens-Narrower : (xs ys : List Text) → allowlist_loosens xs ys ≡ false → Narrower xs ys
unfolding allowlist_loosens
allowlist_loosens-Narrower [] ys e = inl refl
allowlist_loosens-Narrower (x ∷ xs) [] e = absurd (cc e)
allowlist_loosens-Narrower (x ∷ xs) (y ∷ ys) e =
    inr ((λ q. absurd (cc q)), (adds_any_iff (x ∷ xs) (y ∷ ys)).0 e)

allowlist_loosens-false : (xs ys : List Text) → Narrower xs ys → allowlist_loosens xs ys ≡ false
unfolding allowlist_loosens
allowlist_loosens-false [] [] h = refl
allowlist_loosens-false [] (y ∷ ys) h = refl
allowlist_loosens-false (x ∷ xs) ys (inl e) = absurd (cc e)
allowlist_loosens-false (x ∷ xs) [] (inr h) = absurd (h.0 refl)
allowlist_loosens-false (x ∷ xs) (y ∷ ys) (inr h) = (adds_any_iff (x ∷ xs) (y ∷ ys)).1 h.1

Narrower-refl : (xs : List Text) → Narrower xs xs
Narrower-refl [] = inl refl
Narrower-refl (x ∷ xs) = inr ((λ q. absurd (cc q)), Included-refl (x ∷ xs))

pub allowlist-Steady :
    (a b : Profile)
    → any_comma a.model_origin_allowlist ≡ false
    → any_comma b.model_origin_allowlist ≡ false
    → Steady a b allowlist_field ↔ Narrower a.model_origin_allowlist b.model_origin_allowlist
allowlist-Steady a b ha hb =
    (there, λ h. inr (allowlist_loosens-false a.model_origin_allowlist b.model_origin_allowlist h))
  where
    there : Steady a b allowlist_field → Narrower a.model_origin_allowlist b.model_origin_allowlist
    there (inl e) =
        let same =
          show_list-injective a.model_origin_allowlist b.model_origin_allowlist (codes "any origin")
            ha hb (text_eq_sound (allowlist_field.show a) (allowlist_field.show b) e) in
        subst (λ (z : List Text). Narrower a.model_origin_allowlist z)
          {x = a.model_origin_allowlist} {y = b.model_origin_allowlist} same
          (Narrower-refl a.model_origin_allowlist)
    there (inr e) = allowlist_loosens-Narrower a.model_origin_allowlist b.model_origin_allowlist e
