-- ===== src/Policy/Diff/Sound.antt =====
-- What `Diff` and `Loosens` of internal/policy/diff.go say of what a profile demands and permits.
pub mod Steady
use nodary.Prelude.{
  Bool, false, ◌||◌, [], ◌≡◌, refl, arith, ◌⊎◌, inl, inr, ◌↔◌, ◌≤◌, Bool-cases, none,
}
use nodary.Canonical.Text.{Text}
use nodary.Canonical.Number.{text_eq}
use nodary.Canonical.Number.Spelled.{text_eq_sound}
use nodary.Audit.Record.{codes}
use nodary.Policy.{Profile, validate}
use nodary.Policy.Diff.{fields, diff, loosens}
use nodary.Policy.Diff.Shown.{any_comma}
use nodary.Policy.Diff.Sound.Steady.{
  diff_of-Steady, Included, Kept, Narrower, require-Steady, allow-Steady, floor-Steady,
  ceiling-Steady, denylist-Steady, allowlist-Steady,
}

-- Of every setting but `egress_default`: what is demanded by the second profile is at least what the
-- first demands, and what it permits at most what the first permits.
abbrev pub DemandsAsMuch : Profile → Profile → Type 0
DemandsAsMuch a b =
    Kept a.require_totp b.require_totp
    × Kept a.require_justification b.require_justification
    × (a.min_justification_length ≤ b.min_justification_length)
    × Kept a.require_signed_artifacts b.require_signed_artifacts
    × Kept b.allow_unattended_tokens a.allow_unattended_tokens
    × Kept b.allow_custom_backends a.allow_custom_backends
    × Kept b.allow_derived_images a.allow_derived_images
    × Kept a.require_pinned_derives b.require_pinned_derives
    × Narrower a.model_origin_allowlist b.model_origin_allowlist
    × Included a.model_origin_denylist b.model_origin_denylist
    × Kept a.require_model_manifest b.require_model_manifest
    × (b.advisory_decision_days ≤ a.advisory_decision_days)
    × (a.audit_retention_days ≤ b.audit_retention_days)
    × (a.usage_retention_days ≤ b.usage_retention_days)
    × (b.session_ttl_minutes ≤ a.session_ttl_minutes)
    × (b.token_max_ttl_days ≤ a.token_max_ttl_days)

-- Every setting: the second profile denies egress by default, or has the default of the first.
abbrev pub AtLeastAsStrict : Profile → Profile → Type 0
AtLeastAsStrict a b =
    DemandsAsMuch a b × ((b.egress_default ≡ codes "deny") ⊎ (b.egress_default ≡ a.egress_default))

-- No comma stands in an entry of the two lists of origins.
unfoldable pub has_commas : Profile → Bool
has_commas p = any_comma p.model_origin_allowlist || any_comma p.model_origin_denylist

-- The diff of two profiles, against the settings that a field of it compares by their strictness.
pub diff-DemandsAsMuch :
    (a b : Profile)
    → has_commas a ≡ false
    → has_commas b ≡ false
    → (loosens (diff a b) ≡ false) ↔ DemandsAsMuch a b
unfolding has_commas diff
diff-DemandsAsMuch a b ha hb =
    let allow_names = allowlist-Steady a b (ground (arith, ha)) (ground (arith, hb)) in
    let deny_names = denylist-Steady a b (ground (arith, ha)) (ground (arith, hb)) in
    let steady = diff_of-Steady a b fields in
    (
      (λ h.
          let (
            s1,
            (
              s2,
              (
                s3,
                (
                  s4,
                  (
                    s5,
                    (
                      s6,
                      (s7, (s8, (s9, (s10, (s11, (s12, (s13, (s14, (s15, (s16, (s17, _))))))))))),
                    ),
                  ),
                ),
              ),
            ),
          ) =
            steady.0 h in
          (
            (require-Steady (codes "require_totp") (λ p. p.require_totp) a b).0 s1,
            (require-Steady (codes "require_justification") (λ p. p.require_justification) a b).0
                s2,
            (floor-Steady (codes "min_justification_length") (λ p. p.min_justification_length) a
                  b).0
                s3,
            (require-Steady (codes "require_signed_artifacts") (λ p. p.require_signed_artifacts) a
                  b).0
                s4,
            (allow-Steady (codes "allow_unattended_tokens") (λ p. p.allow_unattended_tokens) a b).0
                s5,
            (allow-Steady (codes "allow_custom_backends") (λ p. p.allow_custom_backends) a b).0 s6,
            (allow-Steady (codes "allow_derived_images") (λ p. p.allow_derived_images) a b).0 s7,
            (require-Steady (codes "require_pinned_derives") (λ p. p.require_pinned_derives) a b).0
                s8,
            allow_names.0 s10,
            deny_names.0 s11,
            (require-Steady (codes "require_model_manifest") (λ p. p.require_model_manifest) a b).0
                s12,
            (ceiling-Steady (codes "advisory_decision_days") (λ p. p.advisory_decision_days) a b).0
                s13,
            (floor-Steady (codes "audit_retention_days") (λ p. p.audit_retention_days) a b).0 s14,
            (floor-Steady (codes "usage_retention_days") (λ p. p.usage_retention_days) a b).0 s15,
            (ceiling-Steady (codes "session_ttl_minutes") (λ p. p.session_ttl_minutes) a b).0 s16,
            (ceiling-Steady (codes "token_max_ttl_days") (λ p. p.token_max_ttl_days) a b).0 s17,
          )),
      (λ h.
          let (s1, s2, s3, s4, s5, s6, s7, s8, s10, s11, s12, s13, s14, s15, s16, s17) = h in
          steady.1 (
            (require-Steady (codes "require_totp") (λ p. p.require_totp) a b).1 s1,
            (
              (require-Steady (codes "require_justification") (λ p. p.require_justification) a b).1
                  s2,
              (
                (floor-Steady (codes "min_justification_length") (λ p. p.min_justification_length) a
                      b).1
                    s3,
                (
                  (require-Steady (codes "require_signed_artifacts")
                        (λ p. p.require_signed_artifacts) a b).1
                      s4,
                  (
                    (allow-Steady (codes "allow_unattended_tokens") (λ p. p.allow_unattended_tokens)
                          a b).1
                        s5,
                    (
                      (allow-Steady (codes "allow_custom_backends") (λ p. p.allow_custom_backends) a
                            b).1
                          s6,
                      (
                        (allow-Steady (codes "allow_derived_images") (λ p. p.allow_derived_images) a
                              b).1
                            s7,
                        (
                          (require-Steady (codes "require_pinned_derives")
                                (λ p. p.require_pinned_derives) a b).1
                              s8,
                          (
                            inr refl,
                            (
                              allow_names.1 s10,
                              (
                                deny_names.1 s11,
                                (
                                  (require-Steady (codes "require_model_manifest")
                                        (λ p. p.require_model_manifest) a b).1
                                      s12,
                                  (
                                    (ceiling-Steady (codes "advisory_decision_days")
                                          (λ p. p.advisory_decision_days) a b).1
                                        s13,
                                    (
                                      (floor-Steady (codes "audit_retention_days")
                                            (λ p. p.audit_retention_days) a b).1
                                          s14,
                                      (
                                        (floor-Steady (codes "usage_retention_days")
                                              (λ p. p.usage_retention_days) a b).1
                                            s15,
                                        (
                                          (ceiling-Steady (codes "session_ttl_minutes")
                                                (λ p. p.session_ttl_minutes) a b).1
                                              s16,
                                          (
                                            (ceiling-Steady (codes "token_max_ttl_days")
                                                  (λ p. p.token_max_ttl_days) a b).1
                                                s17,
                                            tt,
                                          ),
                                        ),
                                      ),
                                    ),
                                  ),
                                ),
                              ),
                            ),
                          ),
                        ),
                      ),
                    ),
                  ),
                ),
              ),
            ),
          )),
    )

-- A profile that is accepted denies egress by default.
validate-denies :
    (trim : Text → Text) (p : Profile) → validate trim p ≡ none → p.egress_default ≡ codes "deny"
unfolding validate
validate-denies trim p h = elim (Bool-cases (text_eq (trim p.name) [])) [
  | inl e ↦ absurd (cc (rw (validate, e) at h))
  | inr e ↦ elim (Bool-cases p.require_signed_artifacts) [
    | inr f ↦ absurd (cc (rw (validate, e, f) at h))
    | inl f ↦ elim (Bool-cases (text_eq p.egress_default (codes "deny"))) [
      | inr g ↦ absurd (cc (rw (validate, e, f, g) at h))
      | inl g ↦ text_eq_sound p.egress_default (codes "deny") g
    ]
  ]
]

-- Where no entry of the origin lists of two profiles has a comma and the second profile is one that
-- `validate` accepts, their diff shows nothing that loosens exactly when the second profile is at least as
-- strict in every setting.
pub diff_iff :
    (trim : Text → Text) (a b : Profile)
    → has_commas a ≡ false
    → has_commas b ≡ false
    → validate trim b ≡ none
    → (loosens (diff a b) ≡ false) ↔ AtLeastAsStrict a b
diff_iff trim a b ha hb valid =
    let on = diff-DemandsAsMuch a b ha hb in
    ((λ h. (on.0 h, inl (validate-denies trim b valid))), (λ h. on.1 h.0))
