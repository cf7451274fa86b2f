-- ===== src/Policy/Diff.antt =====
-- The comparison of two profiles: internal/policy/diff.go. The standing of a setting, which only the
-- display reads, is left out.
pub mod Shown
pub mod Sound
pub mod Origins
use nodary.Prelude.{ℕ, Bool, true, false, ◌&&◌, ◌||◌, not, List, [], ◌∷◌, ◌++◌, ltb, if◌then◌else◌}
use nodary.Canonical.Text.{Text}
use nodary.Canonical.Number.{text_eq, digits_of}
use nodary.Audit.Record.{codes}
use nodary.Policy.{Profile}

pub record Change : Type 0 where
  pub setting : Text
  pub before : Text
  pub now : Text
  pub looser : Bool

pub record Field : Type 0 where
  pub name : Text
  pub show : Profile → Text
  pub loosens : Profile → Profile → Bool

unfoldable pub show_bool : Bool → Text
show_bool true = codes "true"
show_bool false = codes "false"

-- `strings.Join` with a comma and a space.
unfoldable pub joined : List Text → Text
joined [] = []
joined (x ∷ []) = x
joined (x ∷ y ∷ xs) = x ++ (b',' ∷ b' ' ∷ joined (y ∷ xs))

unfoldable pub show_list : List Text → Text → Text
show_list [] when_empty = codes "[] (" ++ (when_empty ++ codes ")")
show_list (x ∷ xs) when_empty = b'[' ∷ (joined (x ∷ xs) ++ codes "]")

unfoldable pub contains : List Text → Text → Bool
contains [] v = false
contains (x ∷ xs) v = text_eq x v || contains xs v

unfoldable pub adds_any : List Text → List Text → Bool
adds_any old [] = false
adds_any old (v ∷ vs) = not (contains old v) || adds_any old vs

unfoldable pub allowlist_loosens : List Text → List Text → Bool
allowlist_loosens [] [] = false
allowlist_loosens (a ∷ old) [] = true
allowlist_loosens [] (b ∷ new) = false
allowlist_loosens (a ∷ old) (b ∷ new) = adds_any (a ∷ old) (b ∷ new)

unfoldable pub denylist_loosens : List Text → List Text → Bool
denylist_loosens old new = adds_any new old

-- `requireLoosens`, `allowLoosens`, `lowerLoosens` and `higherLoosens`, with what shows the setting.
abbrev pub require : Text → (Profile → Bool) → Field
require n get = record {
  name = n;
  show = λ p. show_bool (get p);
  loosens = λ a b. get a && not (get b);
}

abbrev pub allow : Text → (Profile → Bool) → Field
allow n get = record {
  name = n;
  show = λ p. show_bool (get p);
  loosens = λ a b. not (get a) && get b;
}

abbrev pub floor : Text → (Profile → ℕ) → Field
floor n get = record {
  name = n;
  show = λ p. digits_of (get p);
  loosens = λ a b. ltb (get b) (get a);
}

abbrev pub ceiling : Text → (Profile → ℕ) → Field
ceiling n get = record {
  name = n;
  show = λ p. digits_of (get p);
  loosens = λ a b. ltb (get a) (get b);
}

abbrev pub egress_field : Field
egress_field = record {
  name = codes "egress_default";
  show = λ p. p.egress_default;
  loosens = λ a b. false;
}

abbrev pub allowlist_field : Field
allowlist_field = record {
  name = codes "model_origin_allowlist";
  show = λ p. show_list p.model_origin_allowlist (codes "any origin");
  loosens = λ a b. allowlist_loosens a.model_origin_allowlist b.model_origin_allowlist;
}

abbrev pub denylist_field : Field
denylist_field = record {
  name = codes "model_origin_denylist";
  show = λ p. show_list p.model_origin_denylist (codes "none denied");
  loosens = λ a b. denylist_loosens a.model_origin_denylist b.model_origin_denylist;
}

-- `fields`.
abbrev pub fields : List Field
fields =
    require (codes "require_totp") (λ p. p.require_totp)
    ∷ require (codes "require_justification") (λ p. p.require_justification)
    ∷ floor (codes "min_justification_length") (λ p. p.min_justification_length)
    ∷ require (codes "require_signed_artifacts") (λ p. p.require_signed_artifacts)
    ∷ allow (codes "allow_unattended_tokens") (λ p. p.allow_unattended_tokens)
    ∷ allow (codes "allow_custom_backends") (λ p. p.allow_custom_backends)
    ∷ allow (codes "allow_derived_images") (λ p. p.allow_derived_images)
    ∷ require (codes "require_pinned_derives") (λ p. p.require_pinned_derives)
    ∷ egress_field
    ∷ allowlist_field
    ∷ denylist_field
    ∷ require (codes "require_model_manifest") (λ p. p.require_model_manifest)
    ∷ ceiling (codes "advisory_decision_days") (λ p. p.advisory_decision_days)
    ∷ floor (codes "audit_retention_days") (λ p. p.audit_retention_days)
    ∷ floor (codes "usage_retention_days") (λ p. p.usage_retention_days)
    ∷ ceiling (codes "session_ttl_minutes") (λ p. p.session_ttl_minutes)
    ∷ ceiling (codes "token_max_ttl_days") (λ p. p.token_max_ttl_days)
    ∷ []

-- The loop of `Diff`.
unfoldable pub diff_of : List Field → Profile → Profile → List Change
diff_of [] a b = []
diff_of (f ∷ fs) a b =
    let rest = diff_of fs a b in
    if text_eq (f.show a) (f.show b)
    then rest
    else record { setting = f.name; before = f.show a; now = f.show b; looser = f.loosens a b }
      ∷ rest

unfoldable pub diff : Profile → Profile → List Change
diff a b = diff_of fields a b

-- `Loosens`.
unfoldable pub loosens : List Change → Bool
loosens [] = false
loosens (c ∷ cs) = c.looser || loosens cs
