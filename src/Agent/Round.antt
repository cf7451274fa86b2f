-- ===== src/Agent/Round.antt =====
-- A whole round of `Reconcile` of internal/agent/reconcile.go on a host that does what it is asked to, and the
-- round after it.
use nodary.Prelude.{
  All-map, String, Bool, true, false, ◌&&◌, Option, none, some, List, [], ◌∷◌, str_eq, ◌≡◌, refl,
  sym, ap, ◌∙◌, ◌⊎◌, inl, inr, arith, Bool-cases, eq_iff, All, subst, map,
}
use mathlib.Core.List.{append-nil}
use nodary.Agent.{judge, stop_others, wanted_by, unit_names, clean_up, with_template, reconcile}
use nodary.Agent.Model.{
  Trouble, Host, Plan, Node, has, ServiceUnit, UnitOutcome, is_staged, built_state, conclusive,
}
use nodary.Agent.Units.{reconcile_unit, reconcile_units}
use nodary.Agent.Apart.{Governed, Apart, Kept, reconcile_unit-Kept, reconcile_units-Kept}
use nodary.Agent.Brought.{Obedient, Startable, reconcile_unit-Settled}
use nodary.Agent.Template.{reconcile_units-template, ensure_template_lem}
use nodary.Agent.Stops.{stop_others-kept, stop_others-stopped}
use nodary.Agent.Converged.{Settled, at_rest, reconcile-Settled}

has_self : (x : String) (xs : List String) → has (x ∷ xs) x ≡ true
unfolding has
has_self x xs = ground (arith, eq_iff x x)

has_more : (x y : String) (xs : List String) → has xs y ≡ true → has (x ∷ xs) y ≡ true
unfolding has
has_more x y xs e = ground (arith, e)

-- What holds of every text that a list has holds of its members.
All_has :
    {P : String → Type 0} (xs : List String) → ((x : String) → has xs x ≡ true → P x) → All P xs
All_has [] f = tt
All_has (x ∷ xs) f = (f x (has_self x xs), All_has xs (λ y e. f y (has_more x y xs e)))

module _ {Sys : Type 0} (h : Host Sys) where
  -- Nothing stands in the way of the unit.
  abbrev pub Ready : Plan → ServiceUnit → Type 0
  Ready p u =
      Obedient h u
      × (is_staged p.stage u.model ≡ true)
      × ((built_state p.prepare u.deployment ≡ none)
          ⊎ (built_state p.prepare u.deployment ≡ some "prepared"))

  -- Each two units are apart.
  abbrev pub Distinct : List ServiceUnit → Type 0
  Distinct [] = Unit
  Distinct (u ∷ us) = All (λ v. Apart h u v × Apart h v u) us × Distinct us

  -- The plan without the restarts that were asked for.
  abbrev pub next : Plan → Plan
  next p = record p { restart = [] }

  Settled-Kept :
      (p : Plan) (n n' : Node Sys) (u : ServiceUnit)
      → Obedient h u
      → Settled h p n u
      → Kept h u n n'
      → Settled h p n' u
  Settled-Kept p n n' u o s k = record {
    staged = s.staged;
    built = s.built;
    image = o.image n'.sys;
    readable = s.readable;
    written = k.file ∙ s.written;
    active = k.state ∙ s.active;
    left_alone = s.left_alone;
    verdict = elim s.verdict [ inl e ↦ inl e | inr e ↦ inr (ap conclusive k.verdict ∙ e) ];
  }

  -- After the loop over the units each of them is settled.
  units-Settled :
      {own : String → Bool}
      → Governed h own
      → (p : Plan) (us : List ServiceUnit) (n : Node Sys) → All (Ready p) us
      → Distinct us
      → All (λ u. Startable h u (has p.restart u.deployment) n.sys) us
      → All (Settled h (next p) (reconcile_units h p us n).2) us
  unfolding reconcile_units has
  units-Settled g p [] n r d w = tt
  units-Settled g p (u ∷ us) n r d w =
      let m = (reconcile_unit h p u n).2 in
      let here = reconcile_unit-Settled h p (next p) u n r.0.0 r.0.1 r.0.2 w.0 refl refl refl in
      let later = reconcile_units-Kept h g p u us m (All-map us (λ v a. a.1) d.0) in
      let startable : All (λ v. Startable h v (has p.restart v.deployment) m.sys) us =
        still us d.0 w.1 in
      (Settled-Kept (next p) m _ u r.0.0 here later, units-Settled g p us m r.1 d.1 startable)
    where
      still :
          (vs : List ServiceUnit)
          → All (λ v. Apart h u v × Apart h v u) vs
          → All (λ v. Startable h v (has p.restart v.deployment) n.sys) vs
          → All (λ v. Startable h v (has p.restart v.deployment) (reconcile_unit h p u n).2.sys) vs
      still [] a w = tt
      still (v ∷ vs) a w =
          let k = reconcile_unit-Kept h g u v a.0.0 p n in
          (elim w.0 [ inl e ↦ inl (rw k.state e) | inr e ↦ inr e ], still vs a.1 w.1)

  -- The plan names each of its units.
  units_named :
      (us : List ServiceUnit)
      → All (λ u. has (unit_names h us) (h.unit_name u.deployment) ≡ true) us
  units_named [] = tt
  units_named (u ∷ us) =
      let name = h.unit_name u.deployment in
      (
        has_self name (unit_names h us),
        All-map us (λ v e. has_more name (h.unit_name v.deployment) (unit_names h us) e)
            (units_named us),
      )

  wanted_units : (p : Plan) → wanted_by h p [] ≡ unit_names h p.units
  unfolding wanted_by
  wanted_units p = elim (Bool-cases p.maintenance_open) [
    | inl e ↦ rw (wanted_by, e) (append-nil (unit_names h p.units))
    | inr e ↦ rw (wanted_by, e) (append-nil (unit_names h p.units))
  ]

  -- The node that is left, where nothing is out of policy.
  cleaned :
      (p : Plan) (outs : List UnitOutcome) (done names : List String) (n : Node Sys)
      → p.out_of_policy ≡ []
      → h.list_active n.sys ≡ some names
      → (clean_up h p (outs, done, n)).1
        ≡ record n { sys = (stop_others h (unit_names h p.units) names n.sys).2 }
  unfolding clean_up judge
  cleaned p outs done names n o l =
      let judged : judge h p.out_of_policy n.sys ≡ ([], []) =
        ap (λ (z : List String). judge h z n.sys) o in
      rw (clean_up, l, judged, wanted_units p) refl

  -- Only wanted units are active when the loop that stops the others is done.
  stopped-listed :
      {own : String → Bool}
      → (g : Governed h own) → (wanted names names' : List String) (s : Sys)
      → ((x : String) → has names x ≡ (own x && str_eq (h.active_state x s) "active"))
      → ((x : String)
          → has names' x
            ≡ (own x && str_eq (h.active_state x (stop_others h wanted names s).2) "active"))
      → (x : String) → has names' x ≡ true
      → has wanted x ≡ true
  stopped-listed {own} g wanted names names' s before behind x e =
      elim (Bool-cases (has wanted x)) [
        | inl w ↦ w
        | inr w ↦
            let up : (own x && str_eq (h.active_state x (stop_others h wanted names s).2) "active")
                ≡ true =
              sym (behind x) ∙ e in
            elim (Bool-cases (has names x)) [
              | inl k ↦
                  let down = stop_others-stopped h g wanted x names s w k in
                  absurd (ground (arith, up, down))
              | inr k ↦
                  let kept = stop_others-kept h g wanted x names s (inr k) in
                  let was : has names x ≡ true = before x ∙ rw kept at up in absurd (cc (k, was))
            ]
      ]

  stopped-Settled :
      {own : String → Bool}
      → (g : Governed h own)
      → (p : Plan) (wanted names : List String) (n : Node Sys) (us : List ServiceUnit)
      → All (Ready p) us
      → All (λ u. has wanted (h.unit_name u.deployment) ≡ true) us
      → All (Settled h (next p) n) us
      → All (Settled h (next p) (record n { sys = (stop_others h wanted names n.sys).2 })) us
  stopped-Settled g p wanted names n [] r w s = tt
  stopped-Settled g p wanted names n (u ∷ us) r w s =
      let kept : Kept h u n (record n { sys = (stop_others h wanted names n.sys).2 }) = record {
        file = refl;
        state = stop_others-kept h g wanted (h.unit_name u.deployment) names n.sys (inl w.0);
        verdict = refl;
      } in
      (
        Settled-Kept (next p) n _ u r.0.0 s.0 kept,
        stopped-Settled g p wanted names n us r.1 w.1 s.1,
      )

  -- Where a command for one unit leaves the others alone, a stopped unit is not active and systemd lists
  -- the agent's active units, the host does what it is asked to for each unit of the plan, their weights
  -- and builds are there, they are distinct, systemd has given up on none of them whose restart was not
  -- asked for, and nothing is out of policy: after one round, the next, of the plan without the
  -- restarts, leaves the node as it is, stops and restarts nothing, has no error, and reports each unit
  -- as starting with nothing done.
  pub reconcile-reconcile :
      {own : String → Bool}
      → Governed h own
      → (p : Plan) (n : Node Sys) → h.read_fails h.template_path ≡ false
      → h.write_fails h.template_path ≡ false
      → All (Ready p) p.units
      → Distinct p.units
      → All (λ u. Startable h u (has p.restart u.deployment) n.sys) p.units
      → p.out_of_policy ≡ []
      → reconcile h (next p) (reconcile h p n).1 ≡ (
        record {
          units = map (at_rest h) p.units;
          stopped = [];
          refused = p.refused;
          out_of_policy = [];
          errors = [];
          restart_done = [];
        },
        (reconcile h p n).1,
      )
  unfolding reconcile with_template
  reconcile-reconcile {own} g p n reads writes ready distinct startable o =
      let (m, e, t, frame) = ensure_template_lem h n reads writes g.reloaded g.reload_frame in
      let n2 = (reconcile_units h p p.units m).2 in
      let (names, l, before) = g.listed n2.sys in
      let wanted = unit_names h p.units in
      let s = (stop_others h wanted names n2.sys).2 in
      let n3 : Node Sys = record n2 { sys = s } in
      let (names', l', behind) = g.listed s in
      let moved : All (λ u. Startable h u (has p.restart u.deployment) m.sys) p.units =
        All-map p.units
          (λ u w. elim w [ inl k ↦ inl (rw (frame (h.unit_name u.deployment)) k) | inr k ↦ inr k ])
          startable in
      let settled = units-Settled g p p.units m ready distinct moved in
      let reached : (reconcile h p n).1 ≡ n3 =
        ap (λ (x : Option Trouble × Node Sys). (with_template h p x).1) e
        ∙ cleaned p (reconcile_units h p p.units m).0 (reconcile_units h p p.units m).1 names n2 o
            l in
      subst
        (λ (x : Node Sys). reconcile h (next p) x ≡ (
          record {
            units = map (at_rest h) p.units;
            stopped = [];
            refused = p.refused;
            out_of_policy = [];
            errors = [];
            restart_done = [];
          },
          x,
        ))
        (sym reached)
        (reconcile-Settled h (next p) n3 names' reads (reconcile_units-template h p p.units m ∙ t)
          (stopped-Settled g p wanted names n2 p.units ready (units_named p.units) settled) o l'
          (All_has names' (stopped-listed g wanted names names' n2.sys before behind)))
