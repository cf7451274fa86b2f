-- ===== src/Agent/Template.antt =====
-- The unit template is not touched by what `Reconcile` of internal/agent/reconcile.go does for the units.
use nodary.Prelude.{
  String, Bool, true, false, Option, none, some, List, [], ◌∷◌, str_eq, ◌≡◌, refl, ◌∙◌, inl, inr,
  arith, Option-cases, Bool-cases, eq_iff, ap,
}
use nodary.Agent.{ensure_template}
use nodary.Agent.Model.{Host, Plan, Node, has, ServiceUnit, Action, built_state}
use nodary.Agent.Units.{
  fetched, configured, reconcile_unit, reconcile_units, write_env_file, drive, start_unit, conclude,
}

module _ {Sys : Type 0} (h : Host Sys) where
  conclude-template :
      (u : ServiceUnit) (action : Action) (acted forced : Bool) (n : Node Sys)
      → (conclude h u action acted forced n).2.template ≡ n.template
  unfolding conclude
  conclude-template u action acted forced n =
      elim (Option-cases (h.verify_egress u.deployment n.sys)) [
        | inl e ↦ ground (arith, e)
        | inr (x, e) ↦ ground (arith, e)
      ]

  start_unit-template :
      (u : ServiceUnit) (forced : Bool) (n : Node Sys)
      → (start_unit h u forced n).2.template ≡ n.template
  unfolding start_unit
  start_unit-template u forced n = ground (
    arith,
    conclude-template u Action.started true forced
        (record n { sys = (h.start (h.unit_name u.deployment) n.sys).1 }),
  )

  drive-template :
      (u : ServiceUnit) (changed forced : Bool) (n : Node Sys)
      → (drive h u changed forced n).2.template ≡ n.template
  unfolding drive
  drive-template u changed forced n =
      let name = h.unit_name u.deployment in
      let nr : Node Sys = record n { sys = (h.restart name n.sys).1 } in
      let nc : Node Sys = record n { sys = (h.reset_failed name n.sys).1 } in
      let asked = conclude-template u Action.restarted_asked true forced nr in
      let moved = conclude-template u Action.restarted_changed true forced nr in
      let again = start_unit-template u forced nc in
      let first = start_unit-template u forced n in
      let still = conclude-template u Action.nothing false forced n in
      ground (arith, asked, moved, again, first, still)

  configured-template :
      (u : ServiceUnit) (forced : Bool) (x : Option Bool × Node Sys)
      → (configured h u forced x).2.template ≡ x.1.template
  unfolding configured
  configured-template u forced (none, n) = refl
  configured-template u forced (some changed, n) = drive-template u changed forced n

  fetched-template :
      (u : ServiceUnit) (forced : Bool) (n : Node Sys) (x : Bool × Sys)
      → (fetched h u forced n x).2.template ≡ n.template
  unfolding fetched write_env_file
  fetched-template u forced n (false, s) = refl
  fetched-template u forced n (true, s) =
      let m : Node Sys = record n { sys = s } in
      let kept : (write_env_file h u m).1.template ≡ n.template = ground arith in
      configured-template u forced (write_env_file h u m) ∙ kept

  reconcile_unit-template :
      (p : Plan) (u : ServiceUnit) (n : Node Sys) → (reconcile_unit h p u n).2.template ≡ n.template
  unfolding reconcile_unit
  reconcile_unit-template p u n =
      let served =
        fetched-template u (has p.restart u.deployment) n (h.ensure_image u.image n.sys) in
      elim (Option-cases (built_state p.prepare u.deployment)) [
        | inl e ↦ ground (arith, e, served)
        | inr (x, e) ↦ ground (arith, e, served)
      ]

  pub reconcile_units-template :
      (p : Plan) (us : List ServiceUnit) (n : Node Sys)
      → (reconcile_units h p us n).2.template ≡ n.template
  unfolding reconcile_units
  reconcile_units-template p [] n = refl
  reconcile_units-template p (u ∷ us) n =
      reconcile_units-template p us (reconcile_unit h p u n).2 ∙ reconcile_unit-template p u n

  -- The template is put in place, and of the units nothing changes.
  pub ensure_template_lem :
      (n : Node Sys)
      → h.read_fails h.template_path ≡ false
      → h.write_fails h.template_path ≡ false
      → ((s : Sys) → (h.reload s).0 ≡ true)
      → ((y : String) (s : Sys) → h.active_state y (h.reload s).1 ≡ h.active_state y s)
      → (m : Node Sys) × (ensure_template h n ≡ (none, m))
        × (m.template ≡ some h.want_template)
        × ((y : String) → h.active_state y m.sys ≡ h.active_state y n.sys)
  unfolding ensure_template
  ensure_template_lem n r w ok frame = elim (Option-cases n.template) [
    | inl e ↦ (
      record n { template = some h.want_template; sys = (h.reload n.sys).1 },
      rw (ensure_template, r, e, w, ok n.sys),
      refl,
      λ y. frame y n.sys,
    )
    | inr (text, e) ↦ elim (Bool-cases (str_eq text h.want_template)) [
      | inl same ↦
          let t : text ≡ h.want_template = ground (arith, same, eq_iff text h.want_template) in
          (n, rw (ensure_template, r, e, same), e ∙ ap some t, λ y. refl)
      | inr other ↦ (
        record n { template = some h.want_template; sys = (h.reload n.sys).1 },
        rw (ensure_template, r, e, other, w, ok n.sys),
        refl,
        λ y. frame y n.sys,
      )
    ]
  ]
