-- ===== src/Policy.antt =====
-- The policy profile: internal/policy. A text is its list of code points, and the reading of the file
-- is left out.
pub mod Origin
pub mod Diff
mod Tests
use nodary.Prelude.{
  ℕ, Bool, true, false, ◌&&◌, ◌||◌, not, Option, none, some, List, [], ◌∷◌, ltb, ◌==◌,
  if◌then◌else◌, length,
}
use nodary.Canonical.Text.{Text}
use nodary.Canonical.Number.{text_eq}
use nodary.Audit.Record.{codes}
use nodary.Attest as Attest

pub record Profile : Type 0 where
  pub name : Text
  pub require_totp : Bool
  pub require_justification : Bool
  pub min_justification_length : ℕ
  pub require_signed_artifacts : Bool
  pub allow_unattended_tokens : Bool
  pub allow_custom_backends : Bool
  pub allow_derived_images : Bool
  pub require_pinned_derives : Bool
  pub egress_default : Text
  pub model_origin_allowlist : List Text
  pub model_origin_denylist : List Text
  pub require_model_manifest : Bool
  pub advisory_decision_days : ℕ
  pub audit_retention_days : ℕ
  pub usage_retention_days : ℕ
  pub session_ttl_minutes : ℕ
  pub token_max_ttl_days : ℕ

-- What is wrong with a profile. A negative number is none here.
pub data Invalid : Type 0 where
  no_name : Invalid
  unsigned_artifacts : Invalid
  egress_allowed : Invalid
  audit_days : Invalid
  usage_days : Invalid
  session_minutes : Invalid
  token_days : Invalid
  blank_origin : Invalid

-- `trim` is `strings.TrimSpace`.
module _ (trim : Text → Text) where
  unfoldable pub any_blank : List Text → Bool
  any_blank [] = false
  any_blank (o ∷ os) = text_eq (trim o) [] || any_blank os

  -- `none` is the nil error.
  unfoldable pub validate : Profile → Option Invalid
  validate p =
      if text_eq (trim p.name) []
      then some Invalid.no_name
      else if not p.require_signed_artifacts
      then some Invalid.unsigned_artifacts
      else if not (text_eq p.egress_default (codes "deny"))
      then some Invalid.egress_allowed
      else if ltb p.audit_retention_days 1
      then some Invalid.audit_days
      else if ltb p.usage_retention_days 1
      then some Invalid.usage_days
      else if ltb p.session_ttl_minutes 1
      then some Invalid.session_minutes
      else if ltb p.token_max_ttl_days 1
      then some Invalid.token_days
      else if any_blank p.model_origin_allowlist || any_blank p.model_origin_denylist
      then some Invalid.blank_origin
      else none
