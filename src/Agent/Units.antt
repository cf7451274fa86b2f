-- ===== src/Agent/Units.antt =====
-- `reconcileUnit` of internal/agent/reconcile.go with what it calls, and the loop over the plan's units.
use nodary.Prelude.{
  String, Bool, true, false, ◌&&◌, ◌||◌, not, Option, none, some, List, [], ◌∷◌, str_eq,
  if◌then◌else◌,
}
use nodary.Agent.Model.{
  ServiceUnit, Plan, Action, UnitOutcome, Node, has, built_state, conclusive, set_text, is_staged,
  outcome, Host,
}

module _ {Sys : Type 0} (h : Host Sys) where
  -- `writeEnvFile`: whether the file changed, `none` for an error.
  unfoldable pub write_env_file : ServiceUnit → Node Sys → Option Bool × Node Sys
  write_env_file u n =
      if h.read_fails u.env_path
      then (none, n)
      else if elim (n.files u.env_path) [ none ↦ false | some text ↦ str_eq text u.rendered ]
      then (some false, n)
      else if h.write_fails u.env_path
      then (none, n)
      else (some true, record n { files = set_text n.files u.env_path (some u.rendered) })

  unfoldable pub is_active : String → Sys → Bool
  is_active name s = str_eq (h.active_state name s) "active"

  -- The state after the unit was driven, and the egress assertion.
  unfoldable pub conclude :
      ServiceUnit → Action → Bool → Bool → Node Sys → UnitOutcome × Bool × Node Sys
  conclude u action acted forced n0 =
      let state = if is_active (h.unit_name u.deployment) n0.sys then "starting" else "stopped" in
      let n = if acted then record n0 { asserted = set_text n0.asserted u.deployment "" } else n0 in
      if h.has_self && (not (str_eq state "stopped") && not (conclusive (n.asserted u.deployment)))
      then elim (h.verify_egress u.deployment n.sys) [
        | some v ↦ (
          record (outcome u.deployment state action false) { egress = some v },
          forced,
          record n { asserted = set_text n.asserted u.deployment v },
        )
        | none ↦ (
          record (outcome u.deployment state action false) { egress = some "inconclusive" },
          forced,
          record n { asserted = set_text n.asserted u.deployment "inconclusive" },
        )
      ]
      else (outcome u.deployment state action false, forced, n)

  -- `systemctl start`, after the failure of the unit was cleared.
  unfoldable pub start_unit : ServiceUnit → Bool → Node Sys → UnitOutcome × Bool × Node Sys
  start_unit u forced n =
      let (ok, sys) = h.start (h.unit_name u.deployment) n.sys in
      let next : Node Sys = record n { sys = sys } in
      if ok
      then conclude u Action.started true forced next
      else (outcome u.deployment "failed" Action.started true, false, next)

  -- From the unit's state on. `changed` is of its environment file.
  unfoldable pub drive : ServiceUnit → Bool → Bool → Node Sys → UnitOutcome × Bool × Node Sys
  drive u changed forced n =
      let name = h.unit_name u.deployment in
      let state = h.active_state name n.sys in
      let active = str_eq state "active" in
      let failing = str_eq state "failed" in
      let action =
        if forced && not changed then Action.restarted_asked else Action.restarted_changed in
      let (restarted, sys) = h.restart name n.sys in
      let (cleared, clean) = h.reset_failed name n.sys in
      if failing && not forced
      then (outcome u.deployment "failed" Action.nothing true, false, n)
      else if (changed || forced) && active
      then if restarted
        then conclude u action true forced (record n { sys = sys })
        else (outcome u.deployment "failed" action true, false, record n { sys = sys })
      else if not active
      then if failing
        then if cleared
          then start_unit u forced (record n { sys = clean })
          else (outcome u.deployment "failed" Action.nothing true, false, record n { sys = clean })
        else start_unit u forced n
      else conclude u Action.nothing false forced n

  -- From the environment file on.
  unfoldable pub configured :
      ServiceUnit → Bool → Option Bool × Node Sys → UnitOutcome × Bool × Node Sys
  configured u forced (none, n) = (outcome u.deployment "failed" Action.nothing true, false, n)
  configured u forced (some changed, n) = drive u changed forced n

  -- From the image on.
  unfoldable pub fetched :
      ServiceUnit → Bool → Node Sys → Bool × Sys → UnitOutcome × Bool × Node Sys
  fetched u forced n (false, sys) =
      (outcome u.deployment "preparing" Action.fetching_image false, false, record n { sys = sys })
  fetched u forced n (true, sys) = configured u forced (write_env_file u (record n { sys = sys }))

  abbrev pub serve : ServiceUnit → Bool → Node Sys → UnitOutcome × Bool × Node Sys
  serve u forced n = fetched u forced n (h.ensure_image u.image n.sys)

  -- `reconcileUnit`.
  unfoldable pub reconcile_unit : Plan → ServiceUnit → Node Sys → UnitOutcome × Bool × Node Sys
  reconcile_unit p u n =
      let forced = has p.restart u.deployment in
      if not (is_staged p.stage u.model)
      then (outcome u.deployment "staging" Action.waiting_for_weights false, false, n)
      else elim (built_state p.prepare u.deployment) [
        | none ↦ serve u forced n
        | some state ↦
            if str_eq state "prepared"
            then serve u forced n
            else if str_eq state "failed"
            then (outcome u.deployment "failed" Action.nothing true, false, n)
            else (outcome u.deployment "preparing" Action.waiting_for_build false, false, n)
      ]

  -- The loop over the plan's units: what came of each, and the restarts that were done.
  unfoldable pub reconcile_units :
      Plan → List ServiceUnit → Node Sys → List UnitOutcome × List String × Node Sys
  reconcile_units p [] n = ([], [], n)
  reconcile_units p (u ∷ us) n =
      let (out, restarted, n') = reconcile_unit p u n in
      let (outs, done, n'') = reconcile_units p us n' in
      (out ∷ outs, (if restarted then u.deployment ∷ done else done), n'')
