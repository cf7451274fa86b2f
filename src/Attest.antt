-- ===== src/Attest.antt =====
-- The ceremony of an attestation: internal/attest/attest.go. A justification is its list of
-- characters, a moment or a duration a number of nanoseconds, and `hash` the hash of a rendered
-- change, `none` where it cannot be hashed.
pub mod Ceremonies
mod Tests
use nodary.Prelude.{
  ℕ, ◌+◌, ◌-◌, ◌*◌, String, Bool, true, false, ◌&&◌, not, Option, none, some, List, ltb, ◌==◌,
  str_eq, if◌then◌else◌, length,
}

-- The members of `policy.Profile` that an attestation reads.
pub record Profile : Type 0 where
  pub require_totp : Bool
  pub require_justification : Bool
  pub min_justification_length : ℕ
  pub allow_unattended_tokens : Bool
  pub token_max_ttl_days : ℕ

pub record Ceremony : Type 0 where
  pub justification : List ℕ
  pub totp_code : String
  pub unattended : Bool
  pub local : Bool
  pub interactive : Bool

pub data Refused : Type 0 where
  intent_changed : Refused
  not_rendered : Refused
  justification_missing : Refused
  justification_short : Refused
  totp_required : Refused
  unattended_forbidden : Refused
  lifetime_too_long : Refused

unfoldable pub needs_totp : Profile → Ceremony → Bool
needs_totp p c = p.require_totp && (not c.unattended && not c.local)

-- `none` lets the act go on. The two refusals for a missing code differ in their text only.
unfoldable pub require : Profile → Ceremony → Option Refused
require p c =
    let n = length c.justification in
    if p.require_justification && (n == 0)
    then some Refused.justification_missing
    else if ltb 0 n && ltb n p.min_justification_length
    then some Refused.justification_short
    else if needs_totp p c && str_eq c.totp_code ""
    then some Refused.totp_required
    else none

unfoldable pub allow_unattended_mint : Profile → Option Refused
allow_unattended_mint p =
    if not p.allow_unattended_tokens then some Refused.unattended_forbidden else none

-- `expires` is `none` for the zero time. A moment in the past is at no distance.
unfoldable pub allow_token_lifetime : Profile → ℕ → Option ℕ → Option Refused
allow_token_lifetime p now expires =
    let max = p.token_max_ttl_days * (24 * 3600000000000) in
    elim expires [
      | none ↦ some Refused.lifetime_too_long
      | some e ↦ if ltb max (e - now) then some Refused.lifetime_too_long else none
    ]

-- A bound change, or why it was refused.
pub data Bound (Change : Type 0) : Type 0 where
  bound : Change → Bound Change
  refused : Refused → Bound Change

-- A render reads the state of the transaction it runs in.
module _ {State Change : Type 0} (hash : Change → Option String) where
  unfoldable pub bind : State → (State → Option Change) → String → Bound Change
  bind state render approved = elim (render state) [
    | none ↦ (Bound.refused Refused.not_rendered)
    | some change ↦ (elim (hash change) [
      | none ↦ (Bound.refused Refused.not_rendered)
      | some now ↦
          if not (str_eq now approved)
          then Bound.refused Refused.intent_changed
          else Bound.bound change
    ])
  ]
