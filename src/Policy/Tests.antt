-- ===== src/Policy/Tests.antt =====
-- Profiles, their diffs and the origins they deny, at concrete inputs.
use nodary.Prelude.{ℕ, true, false, List, [], ◌∷◌, ◌≡◌, refl, ◌↔◌, none, some}
use nodary.Canonical.Text.{Text}
use nodary.Canonical.Number.{text_eq, digits_of, digits_from}
use nodary.Audit.Record.{codes}
use nodary.Policy.{Profile, Invalid, any_blank, validate}
use nodary.Policy.Origin.{matches, any_matches, denies_origin}
use nodary.Policy.Diff.{
  diff, diff_of, loosens, show_bool, show_list, joined, adds_any, contains, allowlist_loosens,
  denylist_loosens,
}
use nodary.Policy.Diff.Shown.{has_comma, any_comma}
use nodary.Policy.Diff.Sound.{has_commas, AtLeastAsStrict, diff_iff}
use nodary.Policy.Diff.Origins.{loosens-denies_origin}

-- For texts without spaces and in lower case.
abbrev trim_same : Text → Text
trim_same t = t

abbrev profile : List Text → List Text → ℕ → Profile
profile allowed denied days = record {
  name = codes "test";
  require_totp = true;
  require_justification = true;
  min_justification_length = 10;
  require_signed_artifacts = true;
  allow_unattended_tokens = false;
  allow_custom_backends = false;
  allow_derived_images = true;
  require_pinned_derives = true;
  egress_default = codes "deny";
  model_origin_allowlist = allowed;
  model_origin_denylist = denied;
  require_model_manifest = true;
  advisory_decision_days = 30;
  audit_retention_days = days;
  usage_retention_days = 90;
  session_ttl_minutes = 60;
  token_max_ttl_days = 90;
}

abbrev us : Text
us = codes "us"

abbrev fr : Text
fr = codes "fr"

abbrev acme : Text
acme = codes "acme"

abbrev active : Profile
active = profile (us ∷ fr ∷ []) (acme ∷ []) 365

-- Fewer origins are allowed and the audit is kept longer.
abbrev candidate : Profile
candidate = profile (us ∷ []) (acme ∷ []) 400

validate_active : validate trim_same active ≡ none
unfolding validate any_blank text_eq
validate_active = refl

candidate_passes : validate trim_same candidate ≡ none
unfolding validate any_blank text_eq
candidate_passes = refl

validate_blank : validate trim_same (profile ([] ∷ []) [] 365) ≡ some Invalid.blank_origin
unfolding validate any_blank text_eq
validate_blank = refl

loosens_back : loosens (diff candidate active) ≡ true
unfolding loosens diff diff_of allowlist_loosens denylist_loosens show_bool show_list joined
    adds_any contains text_eq digits_of digits_from
loosens_back = refl

-- Two origins are shown as one whose name has a comma, and nothing is said of the loosening.
loosens_comma :
    loosens
      (diff (profile (codes "acme, inc" ∷ []) [] 365) (profile (acme ∷ codes "inc" ∷ []) [] 365))
    ≡ false
unfolding loosens diff diff_of show_bool show_list joined text_eq digits_of digits_from
loosens_comma = refl

diff_iff_example : (loosens (diff active candidate) ≡ false) ↔ AtLeastAsStrict active candidate
unfolding has_commas any_comma has_comma
diff_iff_example = diff_iff trim_same active candidate refl refl candidate_passes

loosens-denies_origin_example : denies_origin trim_same text_eq candidate acme fr ≡ true
unfolding has_commas any_comma has_comma loosens diff diff_of show_bool show_list joined text_eq
    allowlist_loosens denylist_loosens adds_any contains denies_origin any_matches matches digits_of
    digits_from
loosens-denies_origin_example =
    loosens-denies_origin trim_same text_eq active candidate acme fr refl refl refl refl
