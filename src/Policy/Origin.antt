-- ===== src/Policy/Origin.antt =====
-- `DeniesOrigin` of internal/policy/origin.go. `trim` is `strings.TrimSpace` and `fold` is
-- `strings.EqualFold`.
use nodary.Prelude.{Bool, true, false, ◌&&◌, ◌||◌, not, List, [], ◌∷◌, if◌then◌else◌}
use nodary.Canonical.Text.{Text}
use nodary.Canonical.Number.{text_eq}
use nodary.Policy.{Profile}

module _ (trim : Text → Text) (fold : Text → Text → Bool) where
  unfoldable pub matches : Text → Text → Text → Bool
  matches entry org country =
      let e = trim entry in
      if text_eq e []
      then false
      else (not (text_eq org []) && fold e org) || (not (text_eq country []) && fold e country)

  unfoldable pub any_matches : List Text → Text → Text → Bool
  any_matches [] org country = false
  any_matches (e ∷ es) org country = matches e org country || any_matches es org country

  -- Whether there is an error.
  unfoldable pub denies_origin : Profile → Text → Text → Bool
  denies_origin p org0 country0 =
      let org = trim org0 in
      let country = trim country0 in
      if any_matches p.model_origin_denylist org country
      then true
      else elim p.model_origin_allowlist [
        | [] ↦ false
        | a ∷ allowed ↦
            if text_eq org [] && text_eq country []
            then true
            else not (any_matches (a ∷ allowed) org country)
      ]
