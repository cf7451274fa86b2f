-- ===== src/Fleet/Restarts.antt =====
-- Restart requests of internal/fleet/transition.go: the table `deployment_restart`, keyed by node
-- and deployment, as a list; what the control plane offers a node; and the removal of a row that
-- the node reports as done, in internal/observed/observed.go. The lists come without the order of
-- the answer (ORDER BY deployment_id), and the time of a request is left out.
pub mod Rolls
use nodary.Prelude.{
  ℕ, zero, suc, ◌+◌, String, Bool, true, false, ◌&&◌, ◌||◌, not, List, [], ◌∷◌, ltb, leb, ◌==◌,
  str_eq, if◌then◌else◌,
}

pub record Replica : Type 0 where
  pub id : String
  pub node : String
  pub state : String

abbrev pub ready : Replica → Bool
ready r = str_eq r.state "ready"

pub record Deployment : Type 0 where
  pub replica : Replica
  pub model_id : String
  pub disabled : Bool

unfoldable pub is_target : String → String → Deployment → Bool
is_target model node d = str_eq d.model_id model && (str_eq node "" || str_eq d.replica.node node)

-- What a restart names, and what it skips. The rows come in the order of the query.
unfoldable pub restart_targets : String → String → List Deployment → List Replica × List Replica
restart_targets model node [] = ([], [])
restart_targets model node (d ∷ rows) =
    let r = restart_targets model node rows in
    if is_target model node d
    then (if d.disabled then (r.0, d.replica ∷ r.1) else (d.replica ∷ r.0, r.1))
    else r

unfoldable pub ready_replicas : String → List Deployment → ℕ
ready_replicas model [] = 0
ready_replicas model (d ∷ rows) =
    let n = ready_replicas model rows in
    if str_eq d.model_id model && (ready d.replica && not d.disabled) then suc n else n

-- `true` where the code returns no error.
unfoldable pub allow_roll : ℕ → ℕ → Bool → Bool
allow_roll ready restarting allow_downtime =
    if allow_downtime || leb 2 ready then true else (if restarting == 0 then true else ready == 0)

pub record Request : Type 0 where
  pub node : String
  pub deployment : String
  pub roll : String
  pub sequence : ℕ

unfoldable pub same_key : Request → Request → Bool
same_key a b = str_eq a.node b.node && str_eq a.deployment b.deployment

-- The upsert of one row.
unfoldable pub upsert : Request → List Request → List Request
upsert q [] = q ∷ []
upsert q (r ∷ rows) = let rest = upsert q rows in if same_key r q then q ∷ rows else r ∷ rest

unfoldable pub request_from : String → ℕ → List Replica → List Request → List Request
request_from roll i [] rows = rows
request_from roll i (r ∷ replicas) rows =
    request_from roll (i + 1) replicas
      (upsert (record { node = r.node; deployment = r.id; roll = roll; sequence = i }) rows)

unfoldable pub request_restart : String → List Replica → List Request → List Request
request_restart roll replicas rows = request_from roll 0 replicas rows

-- A row with an earlier number in the same named roll withholds this one.
unfoldable pub withholds : Request → Request → Bool
withholds e r = str_eq e.roll r.roll && (not (str_eq e.roll "") && ltb e.sequence r.sequence)

unfoldable pub any_withholds : List Request → Request → Bool
any_withholds [] r = false
any_withholds (e ∷ rows) r = withholds e r || any_withholds rows r

unfoldable pub offered_from : List Request → String → List Request → List String
offered_from table node [] = []
offered_from table node (r ∷ rows) =
    let rest = offered_from table node rows in
    if str_eq r.node node && not (any_withholds table r) then r.deployment ∷ rest else rest

unfoldable pub offered_restarts : String → List Request → List String
offered_restarts node rows = offered_from rows node rows

-- The node reports that the restart of a deployment is done.
unfoldable pub restart_done : String → String → List Request → List Request
restart_done node deployment [] = []
restart_done node deployment (r ∷ rows) =
    let rest = restart_done node deployment rows in
    if str_eq r.node node && str_eq r.deployment deployment then rest else r ∷ rest
