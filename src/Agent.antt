-- ===== src/Agent.antt =====
-- `Reconcile` of internal/agent/reconcile.go with `EnsureUnitTemplate` of internal/agent/unit.go: one round
-- of a node's agent. The texts of errors, the sorting of what was stopped and the weights' own report are
-- left out.
pub mod Model
pub mod Units
mod Apart
mod Template
mod Stops
pub mod Round
pub mod Brought
pub mod Converged
pub mod Scoped
mod Tests
use nodary.Prelude.{
  String, Bool, true, false, ◌&&◌, ◌||◌, not, Option, none, some, List, [], ◌∷◌, ◌++◌, str_eq,
  if◌then◌else◌,
}
use nodary.Agent.Model.{
  bad_template, reload_failed, listing, stopping, ServiceUnit, Stage, Prepared, Plan, Action,
  UnitOutcome, Trouble, Report, Node, has, staged_state, built_state, conclusive, set_text,
  is_staged, outcome, Host,
}
use nodary.Agent.Units.{
  write_env_file, is_active, conclude, start_unit, drive, configured, fetched, serve,
  reconcile_unit, reconcile_units,
}

module _ {Sys : Type 0} (h : Host Sys) where
  -- The deployments that the node's rails now exclude: those refused, those running.
  unfoldable pub judge : List String → Sys → List String × List String
  judge [] s = ([], [])
  judge (id ∷ ids) s =
      let (refused, running) = judge ids s in
      if is_active h (h.unit_name id) s then (refused, id ∷ running) else (id ∷ refused, running)

  abbrev pub names_of : List String → List String
  names_of [] = []
  names_of (id ∷ ids) = h.unit_name id ∷ names_of ids

  abbrev pub unit_names : List ServiceUnit → List String
  unit_names [] = []
  unit_names (u ∷ us) = h.unit_name u.deployment ∷ unit_names us

  -- The loop that stops what is not wanted.
  unfoldable pub stop_others : List String → List String → Sys → List String × List Trouble × Sys
  stop_others wanted [] s = ([], [], s)
  stop_others wanted (name ∷ names) s =
      let (ok, after) = h.stop name s in
      let (kept_stopped, kept_trouble, kept_sys) = stop_others wanted names s in
      let (stopped, trouble, sys) = stop_others wanted names after in
      if has wanted name
      then (kept_stopped, kept_trouble, kept_sys)
      else if ok
      then (name ∷ stopped, trouble, sys)
      else (stopped, stopping name ∷ trouble, sys)

  -- `EnsureUnitTemplate`, and the reload it asks for; what went wrong, if anything.
  unfoldable pub ensure_template : Node Sys → Option Trouble × Node Sys
  ensure_template n =
      let (ok, sys) = h.reload n.sys in
      let current : Bool = elim n.template [
        | none ↦ false
        | some text ↦ str_eq text h.want_template
      ] in
      if h.read_fails h.template_path
      then (some bad_template, n)
      else if current
      then (none, n)
      else if h.write_fails h.template_path
      then (some bad_template, n)
      else if ok
      then (none, record n { template = some h.want_template; sys = sys })
      else (some reload_failed, record n { template = some h.want_template; sys = sys })

  unfoldable pub wanted_by : Plan → List String → List String
  wanted_by p running = unit_names p.units ++ (if p.maintenance_open then [] else names_of running)

  -- What follows the loop over the units.
  unfoldable pub clean_up : Plan → List UnitOutcome × List String × Node Sys → Report × Node Sys
  clean_up p (outs, done, n) =
      let (refused, running) = judge p.out_of_policy n.sys in
      elim (h.list_active n.sys) [
        | none ↦ (
          record {
            units = outs;
            stopped = [];
            refused = p.refused ++ refused;
            out_of_policy = running;
            errors = listing ∷ [];
            restart_done = done;
          },
          n,
        )
        | some names ↦
            let (stopped, trouble, sys) = stop_others (wanted_by p running) names n.sys in
            (
              record {
                units = outs;
                stopped = stopped;
                refused = p.refused ++ refused;
                out_of_policy = running;
                errors = trouble;
                restart_done = done;
              },
              record n { sys = sys },
            )
      ]

  -- What follows the template.
  unfoldable pub with_template : Plan → Option Trouble × Node Sys → Report × Node Sys
  with_template p (some e, n) = (
    record {
      units = [];
      stopped = [];
      refused = p.refused;
      out_of_policy = [];
      errors = e ∷ [];
      restart_done = [];
    },
    n,
  )
  with_template p (none, n) = clean_up p (reconcile_units h p p.units n)

  -- `Reconcile`.
  unfoldable pub reconcile : Plan → Node Sys → Report × Node Sys
  reconcile p n = with_template p (ensure_template n)
