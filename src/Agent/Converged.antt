-- ===== src/Agent/Converged.antt =====
-- A node on which the plan is in force, and a round of `Reconcile` of internal/agent/reconcile.go there.
use nodary.Prelude.{
  String, Bool, true, false, Option, none, some, List, [], ◌∷◌, ◌++◌, str_eq, if◌then◌else◌, ◌≡◌,
  refl, ap, ◌∙◌, ◌⊎◌, inl, inr, arith, Bool-cases, All, eq_iff, map,
}
use mathlib.Core.List.{append-nil}
use nodary.Agent.{
  clean_up, with_template, ensure_template, judge, unit_names, stop_others, wanted_by, reconcile,
}
use nodary.Agent.Model.{
  Trouble, Host, Plan, Node, has, ServiceUnit, UnitOutcome, outcome, Action, is_staged, built_state,
  conclusive,
}
use nodary.Agent.Units.{
  fetched, configured, reconcile_unit, reconcile_units, serve, write_env_file, drive, conclude,
  is_active,
}

module _ {Sys : Type 0} (h : Host Sys) where
  -- Nothing is left to do for the unit: its weights and its build are there, its file is what it should
  -- be, it is active, no restart was asked for, and its egress verdict stands.
  pub record Settled (p : Plan) (n : Node Sys) (u : ServiceUnit) : Type 0 where
    pub staged : is_staged p.stage u.model ≡ true
    pub built :
        (built_state p.prepare u.deployment ≡ none)
        ⊎ (built_state p.prepare u.deployment ≡ some "prepared")
    pub image : h.ensure_image u.image n.sys ≡ (true, n.sys)
    pub readable : h.read_fails u.env_path ≡ false
    pub written : n.files u.env_path ≡ some u.rendered
    pub active : h.active_state (h.unit_name u.deployment) n.sys ≡ "active"
    pub left_alone : has p.restart u.deployment ≡ false
    pub verdict : (h.has_self ≡ false) ⊎ (conclusive (n.asserted u.deployment) ≡ true)

  abbrev pub at_rest : ServiceUnit → UnitOutcome
  at_rest u = outcome u.deployment "starting" Action.nothing false

  conclude-Settled :
      (p : Plan) (n : Node Sys) (u : ServiceUnit)
      → Settled p n u
      → conclude h u Action.nothing false false n ≡ (at_rest u, false, n)
  unfolding conclude is_active
  conclude-Settled p n u s =
      let up : str_eq (h.active_state (h.unit_name u.deployment) n.sys) "active" ≡ true =
        ground
          (arith, s.active, eq_iff (h.active_state (h.unit_name u.deployment) n.sys) "active") in
      elim s.verdict [
        | inl e ↦ rw (conclude, up, e)
        | inr e ↦ elim (Bool-cases h.has_self) [
          | inl k ↦ rw (conclude, up, k, e)
          | inr k ↦ rw (conclude, up, k)
        ]
      ]

  drive-Settled :
      (p : Plan) (n : Node Sys) (u : ServiceUnit)
      → Settled p n u
      → drive h u false false n ≡ (at_rest u, false, n)
  unfolding drive
  drive-Settled p n u s =
      let word = h.active_state (h.unit_name u.deployment) n.sys in
      let up : str_eq word "active" ≡ true = ground (arith, s.active, eq_iff word "active") in
      let well : str_eq word "failed" ≡ false = rw (s.active) refl in
      rw (drive, well, up) (conclude-Settled p n u s)

  write_env_file-Settled :
      (p : Plan) (n : Node Sys) (u : ServiceUnit)
      → Settled p n u
      → write_env_file h u n ≡ (some false, n)
  unfolding write_env_file
  write_env_file-Settled p n u s =
      let same : str_eq u.rendered u.rendered ≡ true =
        ground (arith, eq_iff u.rendered u.rendered) in
      rw (write_env_file, s.readable, s.written, same)

  serve-Settled :
      (p : Plan) (n : Node Sys) (u : ServiceUnit)
      → Settled p n u
      → serve h u false n ≡ (at_rest u, false, n)
  unfolding fetched configured
  serve-Settled p n u s =
      ap (λ (x : Bool × Sys). fetched h u false n x) s.image
      ∙ ap (λ (x : Option Bool × Node Sys). configured h u false x) (write_env_file-Settled p n u s)
      ∙ drive-Settled p n u s

  reconcile_unit-Settled :
      (p : Plan) (n : Node Sys) (u : ServiceUnit)
      → Settled p n u
      → reconcile_unit h p u n ≡ (at_rest u, false, n)
  unfolding reconcile_unit
  reconcile_unit-Settled p n u s = elim s.built [
    | inl b ↦ rw (reconcile_unit, s.staged, b, s.left_alone) (serve-Settled p n u s)
    | inr b ↦ rw (reconcile_unit, s.staged, b, s.left_alone) (serve-Settled p n u s)
  ]

  reconcile_units-Settled :
      (p : Plan) (n : Node Sys) (us : List ServiceUnit)
      → All (Settled p n) us
      → reconcile_units h p us n ≡ (map at_rest us, [], n)
  unfolding reconcile_units
  reconcile_units-Settled p n [] s = refl
  reconcile_units-Settled p n (u ∷ us) s =
      rw (reconcile_units, reconcile_unit-Settled p n u s.0, reconcile_units-Settled p n us s.1)

  stop_others-wanted :
      (wanted names : List String) (s : Sys)
      → All (λ x. has wanted x ≡ true) names
      → stop_others h wanted names s ≡ ([], [], s)
  unfolding stop_others
  stop_others-wanted wanted [] s a = refl
  stop_others-wanted wanted (x ∷ names) s a =
      rw (stop_others, a.0, stop_others-wanted wanted names s a.1)

  has-append : (xs ys : List String) (x : String) → has xs x ≡ true → has (xs ++ ys) x ≡ true
  unfolding has
  has-append [] ys x e = absurd (cc e)
  has-append (z ∷ xs) ys x e = elim (Bool-cases (str_eq z x)) [
    | inl q ↦ ground (arith, q)
    | inr q ↦ ground (arith, q, has-append xs ys x (ground (arith, e, q)))
  ]

  wanted_of :
      (p : Plan) (names : List String)
      → All (λ x. has (unit_names h p.units) x ≡ true) names
      → All (λ x. has (wanted_by h p []) x ≡ true) names
  unfolding wanted_by
  wanted_of p [] w = tt
  wanted_of p (x ∷ names) w = (
    has-append (unit_names h p.units) (if p.maintenance_open then [] else []) x w.0,
    wanted_of p names w.1,
  )

  ensure_template-Settled :
      (n : Node Sys)
      → h.read_fails h.template_path ≡ false
      → n.template ≡ some h.want_template
      → ensure_template h n ≡ (none, n)
  unfolding ensure_template
  ensure_template-Settled n f t =
      let same : str_eq h.want_template h.want_template ≡ true =
        ground (arith, eq_iff h.want_template h.want_template) in
      rw (ensure_template, f, t, same)

  clean_up-Settled :
      (p : Plan) (n : Node Sys) (names : List String) (outs : List UnitOutcome)
      → p.out_of_policy ≡ []
      → h.list_active n.sys ≡ some names
      → stop_others h (wanted_by h p []) names n.sys ≡ ([], [], n.sys)
      → clean_up h p (outs, [], n) ≡ (
        record {
          units = outs;
          stopped = [];
          refused = p.refused;
          out_of_policy = [];
          errors = [];
          restart_done = [];
        },
        n,
      )
  unfolding clean_up judge
  clean_up-Settled p n names outs o l k =
      let judged : judge h p.out_of_policy n.sys ≡ ([], []) =
        ap (λ (z : List String). judge h z n.sys) o in
      rw (clean_up, l, judged, k, append-nil p.refused)

  -- On a node whose template can be read and is in place, whose units are settled, where nothing is out of
  -- policy and systemd lists units of the plan only: a round leaves the node as it is, stops and restarts
  -- nothing, has no error, and reports each unit as starting with nothing done.
  pub reconcile-Settled :
      (p : Plan) (n : Node Sys) (names : List String)
      → h.read_fails h.template_path ≡ false
      → n.template ≡ some h.want_template
      → All (Settled p n) p.units
      → p.out_of_policy ≡ []
      → h.list_active n.sys ≡ some names
      → All (λ x. has (unit_names h p.units) x ≡ true) names
      → reconcile h p n ≡ (
        record {
          units = map at_rest p.units;
          stopped = [];
          refused = p.refused;
          out_of_policy = [];
          errors = [];
          restart_done = [];
        },
        n,
      )
  unfolding reconcile with_template
  reconcile-Settled p n names f t s o l w =
      ap (λ (x : Option Trouble × Node Sys). with_template h p x) (ensure_template-Settled n f t)
      ∙ ap (λ (x : List UnitOutcome × List String × Node Sys). clean_up h p x)
          (reconcile_units-Settled p n p.units s)
      ∙ clean_up-Settled p n names (map at_rest p.units) o l
          (stop_others-wanted (wanted_by h p []) names n.sys (wanted_of p names w))
