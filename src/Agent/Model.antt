-- ===== src/Agent/Model.antt =====
-- The plan, the report and the state of `Reconcile` of internal/agent/reconcile.go. systemd and what else the
-- agent asks of its host are the fields of `Host`. The files that the agent writes, and the egress verdicts
-- it remembers, are its own state.
use nodary.Prelude.{
  String, Bool, false, ◌&&◌, ◌||◌, not, Option, none, some, List, [], ◌∷◌, str_eq, if◌then◌else◌,
}

pub record ServiceUnit : Type 0 where
  pub deployment : String
  pub model : String
  pub image : String
  pub env_path : String
  pub rendered : String

pub record Stage : Type 0 where
  pub model : String
  pub state : String

pub record Prepared : Type 0 where
  pub deployment : String
  pub state : String

pub record Plan : Type 0 where
  pub units : List ServiceUnit
  pub stage : List Stage
  pub prepare : List Prepared
  pub refused : List String
  pub out_of_policy : List String
  pub restart : List String
  pub maintenance_open : Bool

pub data Action : Type 0 where
  nothing waiting_for_weights waiting_for_build fetching_image : Action
  restarted_changed restarted_asked started : Action

pub record UnitOutcome : Type 0 where
  pub deployment : String
  pub state : String
  pub action : Action
  pub error : Bool
  pub egress : Option String

pub data Trouble : Type 0 where
  bad_template reload_failed listing : Trouble
  stopping : String → Trouble

pub record Report : Type 0 where
  pub units : List UnitOutcome
  pub stopped : List String
  pub refused : List String
  pub out_of_policy : List String
  pub errors : List Trouble
  pub restart_done : List String

-- `sys` is the host behind its commands.
pub record Node (Sys : Type 0) : Type 0 where
  pub sys : Sys
  pub template : Option String
  pub files : String → Option String
  pub asserted : String → String

unfoldable pub has : List String → String → Bool
has [] x = false
has (y ∷ ys) x = str_eq y x || has ys x

-- The maps that `Reconcile` builds: the last of a key wins.
unfoldable pub staged_state : List Stage → String → Option String
staged_state [] model = none
staged_state (s ∷ ss) model = elim (staged_state ss model) [
  | some later ↦ some later
  | none ↦ if str_eq s.model model then some s.state else none
]

unfoldable pub built_state : List Prepared → String → Option String
built_state [] id = none
built_state (b ∷ bs) id = elim (built_state bs id) [
  | some later ↦ some later
  | none ↦ if str_eq b.deployment id then some b.state else none
]

unfoldable pub conclusive : String → Bool
conclusive state = not (str_eq state "") && not (str_eq state "inconclusive")

unfoldable pub set_text : {A : Type 0} → (String → A) → String → A → String → A
set_text f key value k = if str_eq k key then value else f k

unfoldable pub is_staged : List Stage → String → Bool
is_staged ss model = elim (staged_state ss model) [
  | none ↦ false
  | some state ↦ str_eq state "staged"
]

-- An outcome without an egress verdict.
abbrev pub outcome : String → String → Action → Bool → UnitOutcome
outcome id state action error = record {
  deployment = id;
  state = state;
  action = action;
  error = error;
  egress = none;
}

-- `Host`: what the agent runs and asks. A command gives the host's next state and whether it went
-- well; `list_active` is `runningInstances`, `none` for an error, `read_fails` whether a file
-- that may stand there cannot be read, and `write_fails` whether it cannot be written.
pub record Host (Sys : Type 0) : Type 0 where
  pub unit_name : String → String
  pub active_state : String → Sys → String
  pub start : String → Sys → Bool × Sys
  pub restart : String → Sys → Bool × Sys
  pub reset_failed : String → Sys → Bool × Sys
  pub stop : String → Sys → Bool × Sys
  pub reload : Sys → Bool × Sys
  pub list_active : Sys → Option (List String)
  pub ensure_image : String → Sys → Bool × Sys
  pub verify_egress : String → Sys → Option String
  pub read_fails : String → Bool
  pub write_fails : String → Bool
  pub template_path : String
  pub want_template : String
  pub has_self : Bool
