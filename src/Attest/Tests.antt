-- ===== src/Attest/Tests.antt =====
-- Runs of Require and Bind.
use nodary.Prelude.{
  ℕ, ◌≡◌, refl, String, Bool, true, false, Option, none, some, [], ◌∷◌, ltb, if◌then◌else◌,
}
use nodary.Attest.{Profile, Ceremony, needs_totp, require, Bound, bind}

abbrev strict : Profile
strict = record {
  require_totp = true;
  require_justification = true;
  min_justification_length = 2;
  allow_unattended_tokens = false;
  token_max_ttl_days = 30;
}

abbrev offered : Ceremony
offered = record {
  justification = 97 ∷ 98 ∷ 99 ∷ [];
  totp_code = "123456";
  unattended = false;
  local = false;
  interactive = true;
}

passes : require strict offered ≡ none
unfolding require needs_totp
passes = refl

-- A state is a number, and the change names whether it is large.
abbrev render : ℕ → Option Bool
render n = some (ltb 10 n)

abbrev hash : Bool → Option String
hash large = some (if large then "large" else "small")

is_bound : bind hash 12 render "large" ≡ Bound.bound true
unfolding bind
is_bound = refl
