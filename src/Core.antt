-- ===== src/Core.antt =====
-- `Act` and `Preview` of internal/core/core.go: every front end's way to a change. A render and an
-- apply are functions of what the database holds besides the account and the credentials; `hash` is
-- `attest.Hash`, `none` for its error, and `snapshot` gives the text of what was noted and of an error.
-- That the active policy can be read is taken for
-- granted, and what an apply notes itself is left out.
pub mod Applied
mod Tests
use nodary.Prelude.{
  ℕ, ◌/◌, String, Bool, true, false, ◌&&◌, ◌||◌, not, Option, none, some, List, [], ◌∷◌, ◌++◌,
  str_eq, if◌then◌else◌,
}
use nodary.Attest as Attest
use nodary.Attest.{Profile, Ceremony, needs_totp, require, Bound, bind}
use nodary.Identity.Totp as Totp
use nodary.Identity.Totp.{Account, verify_totp}
use nodary.Audit.Record.{Record, Actor, Source, Target, codes, truncate_ms}
use nodary.Audit.Log as Log
use nodary.Audit.Log.{
  Ran, succeeded, partially, failed, Cause, Delivery, World, Environment, Acted, act,
}

pub record Token : Type 0 where
  pub id : String
  pub last_used : Option ℕ

-- What an act may change: the account of the user who acts, the credentials, and the rest.
pub record Site (State : Type 0) : Type 0 where
  pub account : Account
  pub tokens : List Token
  pub state : State

-- `token` is empty where no credential with a use record authorized the act.
pub record Principal : Type 0 where
  pub actor : Actor
  pub token : String
  pub unattended : Bool

pub record Request : Type 0 where
  pub principal : Principal
  pub justification : String
  pub totp_code : String
  pub interactive : Bool
  pub intent : String
  pub dry_run : Bool
  pub request_id : String

pub data Applying (State Fault : Type 0) : Type 0 where
  applied : State → Applying State Fault
  partly : State → Fault → Applying State Fault
  faulty : Fault → Applying State Fault

pub record Change (State Rendered Fault : Type 0) : Type 0 where
  pub action : String
  pub target : Option Target
  pub render : State → Option Rendered
  pub apply : Rendered → State → Applying State Fault

-- What the act notes in its record.
pub data Note : Type 0 where
  request_id_is : String → Note
  exempt_local : Note
  exempt_unattended : Note

-- Why the mutation of an act fails.
pub data Failure (Fault : Type 0) : Type 0 where
  no_key : Failure Fault
  bad_totp : Totp.Refused → Failure Fault
  unbound : Attest.Refused → Failure Fault
  fault : Fault → Failure Fault

pub data Outcome (State Rendered Fault : Type 0) : Type 0 where
  not_rendered : Outcome State Rendered Fault
  not_hashed : Rendered → Outcome State Rendered Fault
  previewed : Rendered → String → Outcome State Rendered Fault  -- a dry run
  intent_changed : Rendered → String → Outcome State Rendered Fault
  refused : Rendered → String → Attest.Refused → Outcome State Rendered Fault
  acted : Rendered → String → Acted (Site State) (Failure Fault) → Outcome State Rendered Fault

unfoldable pub is_local : Principal → Bool
is_local p = str_eq p.actor.method "local"

-- The ceremony of a request, with what the principal says of itself.
unfoldable pub ceremony_of : Request → Ceremony
ceremony_of req = record {
  justification = codes req.justification;
  totp_code = req.totp_code;
  unattended = req.principal.unattended;
  local = is_local req.principal;
  interactive = req.interactive;
}

-- `identity.Touch`.
unfoldable pub touch_token : String → ℕ → List Token → List Token
touch_token id now [] = []
touch_token id now (t ∷ ts) =
    (if str_eq t.id id then record t { last_used = some (truncate_ms now) } else t)
    ∷ touch_token id now ts

-- `touch`: nothing where there is no credential.
unfoldable pub touch : {State : Type 0} → Principal → ℕ → Site State → Site State
touch p now s =
    if str_eq p.token "" then s else record s { tokens = touch_token p.token now s.tokens }

unfoldable pub notes_of : Profile → Request → List Note
notes_of profile req =
    (if str_eq req.request_id "" then [] else request_id_is req.request_id ∷ [])
    ++ (if profile.require_totp && not (needs_totp profile (ceremony_of req))
        then (if is_local req.principal then exempt_local ∷ [] else exempt_unattended ∷ [])
        else [])

unfoldable pub audit_request :
    {State Rendered Fault : Type 0} → Request → Change State Rendered Fault → String → Log.Request
audit_request req c intent_hash = record {
  actor = req.principal.actor;
  source = record { ip = ""; version = "" };
  action = c.action;
  target = c.target;
  intent_hash = intent_hash;
  justification = req.justification;
}

module _ (hmac : List ℕ → List ℕ → List ℕ) {State Rendered Fault : Type 0}
    (hash : Rendered → Option String) where
  -- The end of the mutation: the bound render is applied.
  unfoldable pub bind_and_apply :
      Change State Rendered Fault
      → String
      → List Note
      → Site State
      → Ran (Site State) (List Note) (Failure Fault)
  bind_and_apply c approved notes s = elim (bind hash s.state c.render approved) [
    | Bound.refused e ↦ failed notes (unbound e)
    | Bound.bound change ↦ elim (c.apply change s.state) [
      | applied t ↦ succeeded (record s { state = t }) notes
      | partly t e ↦ partially (record s { state = t }) notes (fault e)
      | faulty e ↦ failed notes (fault e)
    ]
  ]

  -- The mutation of an act. `has_key` is whether the key of the seeds can be read.
  unfoldable pub mutate :
      Profile
      → Bool
      → ℕ
      → Request
      → Change State Rendered Fault
      → String
      → Site State
      → Ran (Site State) (List Note) (Failure Fault)
  mutate profile has_key now req c approved site =
      let notes = notes_of profile req in
      let s = touch req.principal now site in
      let (account, wrong) = verify_totp hmac s.account (now / 1000000000) (codes req.totp_code) in
      if needs_totp profile (ceremony_of req)
      then if has_key
        then elim wrong [
          | some e ↦ failed notes (bad_totp e)
          | none ↦ bind_and_apply c approved notes (record s { account = account })
        ]
        else failed notes no_key
      else bind_and_apply c approved notes s

  module _ (valid : String → String) (digest : Record → Option String)
      (snapshot : List Note → Option (Cause (Failure Fault)) → String) where
    -- After the preview and its hash. `now` is the moment of the request.
    unfoldable pub act_approved :
        Delivery
        → Environment
        → World (Site State)
        → Profile
        → Bool
        → ℕ
        → Request
        → Change State Rendered Fault
        → Rendered
        → String
        → Outcome State Rendered Fault
    act_approved d env w profile has_key now req c preview approved =
        if req.dry_run
        then previewed preview approved
        else if not (str_eq req.intent "") && not (str_eq req.intent approved)
        then intent_changed preview approved
        else elim (require profile (ceremony_of req)) [
          | some e ↦ refused preview approved e
          | none ↦ acted preview approved (
              act valid digest snapshot [] d env w (audit_request req c approved)
                (mutate profile has_key now req c approved))
        ]

    -- `Act`. The preview reads `seen`, which may be an earlier state than the transaction's.
    unfoldable pub act_core :
        Delivery
        → Environment
        → State
        → World (Site State)
        → Profile
        → Bool
        → ℕ
        → Request
        → Change State Rendered Fault
        → Outcome State Rendered Fault
    act_core d env seen w profile has_key now req c = elim (c.render seen) [
      | none ↦ not_rendered
      | some preview ↦ elim (hash preview) [
        | none ↦ not_hashed preview
        | some approved ↦ act_approved d env w profile has_key now req c preview approved
      ]
    ]
