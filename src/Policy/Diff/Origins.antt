-- ===== src/Policy/Diff/Origins.antt =====
-- `Diff` of internal/policy/diff.go against `DeniesOrigin` of internal/policy/origin.go.
use nodary.Prelude.{
  Bool, true, false, ◌&&◌, not, List, [], ◌∷◌, ◌≡◌, ap, ◌∙◌, refl, arith, if◌then◌else◌, inl, inr,
  Bool-cases,
}
use nodary.Canonical.Text.{Text}
use nodary.Canonical.Number.{text_eq}
use nodary.Canonical.Number.Spelled.{text_eq_sound}
use nodary.Policy.{Profile}
use nodary.Policy.Origin.{matches, any_matches, denies_origin}
use nodary.Policy.Diff.{contains, diff, loosens}
use nodary.Policy.Diff.Sound.Steady.{Included, Narrower}
use nodary.Policy.Diff.Sound.{has_commas, diff-DemandsAsMuch}

module _ (trim : Text → Text) (fold : Text → Text → Bool) where
  any_matches-contains :
      (es : List Text) (x org country : Text)
      → contains es x ≡ true
      → matches trim fold x org country ≡ true
      → any_matches trim fold es org country ≡ true
  unfolding any_matches contains
  any_matches-contains [] x org country c m = absurd (cc c)
  any_matches-contains (e ∷ es) x org country c m = elim (Bool-cases (text_eq e x)) [
    | inl q ↦
        let same = ap (λ (z : Text). matches trim fold z org country) (text_eq_sound e x q) ∙ m in
        ground (arith, same)
    | inr q ↦ ground (arith, any_matches-contains es x org country (ground (arith, c, q)) m)
  ]

  any_matches-Included :
      (xs ys : List Text) (org country : Text)
      → Included xs ys
      → any_matches trim fold xs org country ≡ true
      → any_matches trim fold ys org country ≡ true
  unfolding any_matches
  any_matches-Included [] ys org country h m = absurd (cc m)
  any_matches-Included (x ∷ xs) ys org country h m =
      elim (Bool-cases (matches trim fold x org country)) [
        | inl q ↦ any_matches-contains ys x org country h.0 q
        | inr q ↦ any_matches-Included xs ys org country h.1 (ground (arith, m, q))
      ]

  -- What the allowlist says of an origin, as `denies_origin` reads it.
  abbrev unlisted : List Text → Text → Text → Bool
  unlisted allowed org country = elim allowed [
    | [] ↦ false
    | a ∷ rest ↦
        if text_eq org [] && text_eq country []
        then true
        else not (any_matches trim fold (a ∷ rest) org country)
  ]

  unlisted-Narrower :
      (xs ys : List Text) (org country : Text)
      → Narrower xs ys
      → unlisted xs org country ≡ true
      → unlisted ys org country ≡ true
  unlisted-Narrower [] ys org country h u = absurd (cc u)
  unlisted-Narrower (x ∷ xs) ys org country (inl e) u = absurd (cc e)
  unlisted-Narrower (x ∷ xs) [] org country (inr h) u = absurd (h.0 refl)
  unlisted-Narrower (x ∷ xs) (y ∷ ys) org country (inr h) u =
      let back = any_matches-Included (y ∷ ys) (x ∷ xs) org country h.1 in ground (arith, u, back)

  -- Where no entry of the origin lists of two profiles has a comma, and the diff from the first to the
  -- second shows nothing that loosens, an origin that the first denies is denied by the second.
  pub loosens-denies_origin :
      (a b : Profile) (org country : Text)
      → has_commas a ≡ false
      → has_commas b ≡ false
      → loosens (diff a b) ≡ false
      → denies_origin trim fold a org country ≡ true
      → denies_origin trim fold b org country ≡ true
  unfolding denies_origin
  loosens-denies_origin a b org country ha hb calm d =
      let (_, _, _, _, _, _, _, _, allowed, denied, _, _, _, _, _, _) =
        (diff-DemandsAsMuch a b ha hb).0 calm in
      elim (Bool-cases (any_matches trim fold a.model_origin_denylist (trim org) (trim country))) [
        | inl q ↦
            let again =
              any_matches-Included a.model_origin_denylist b.model_origin_denylist (trim org)
                (trim country) denied q in
            rw (denies_origin, again)
        | inr q ↦
            let left : unlisted a.model_origin_allowlist (trim org) (trim country) ≡ true =
              rw (denies_origin, q) at d in
            let right =
              unlisted-Narrower a.model_origin_allowlist b.model_origin_allowlist (trim org)
                (trim country) allowed left in
            elim (Bool-cases
              (any_matches trim fold b.model_origin_denylist (trim org) (trim country))) [
                | inl z ↦ rw (denies_origin, z)
                | inr z ↦ rw (denies_origin, z, right)
              ]
      ]
