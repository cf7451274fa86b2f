-- ===== src/Agent/Apart.antt =====
-- What a round of `Reconcile` of internal/agent/reconcile.go does for one unit leaves the others alone.
use nodary.Prelude.{
  String, Bool, true, false, ◌&&◌, Option, none, some, List, [], ◌∷◌, str_eq, ◌≡◌, refl, ◌∙◌, inl,
  inr, arith, Option-cases, All,
}
use nodary.Agent.Model.{Host, Plan, Node, has, ServiceUnit, Action, built_state, set_text}
use nodary.Agent.Units.{
  fetched, configured, reconcile_unit, reconcile_units, write_env_file, drive, start_unit, conclude,
}

module _ {Sys : Type 0} (h : Host Sys) where
  -- systemd, of which `own` are the agent's units: a command for one unit leaves the state of the others,
  -- a stopped unit is not active, and the list is of the own units that are active.
  pub record Governed (own : String → Bool) : Type 0 where
    pub start_frame :
        (x y : String) (s : Sys)
        → str_eq y x ≡ false
        → h.active_state y (h.start x s).1 ≡ h.active_state y s
    pub restart_frame :
        (x y : String) (s : Sys)
        → str_eq y x ≡ false
        → h.active_state y (h.restart x s).1 ≡ h.active_state y s
    pub reset_frame :
        (x y : String) (s : Sys)
        → str_eq y x ≡ false
        → h.active_state y (h.reset_failed x s).1 ≡ h.active_state y s
    pub stop_frame :
        (x y : String) (s : Sys)
        → str_eq y x ≡ false
        → h.active_state y (h.stop x s).1 ≡ h.active_state y s
    pub reload_frame : (y : String) (s : Sys) → h.active_state y (h.reload s).1 ≡ h.active_state y s
    pub image_frame :
        (image y : String) (s : Sys)
        → h.active_state y (h.ensure_image image s).1 ≡ h.active_state y s
    pub reloaded : (s : Sys) → (h.reload s).0 ≡ true
    pub stopped :
        (x : String) (s : Sys)
        → ((h.stop x s).0 ≡ true) × (str_eq (h.active_state x (h.stop x s).1) "active" ≡ false)
    pub listed :
        (s : Sys)
        → (names : List String) × (h.list_active s ≡ some names)
          × ((x : String) → has names x ≡ (own x && str_eq (h.active_state x s) "active"))

  -- `v` is another unit than `u`.
  abbrev pub Apart : ServiceUnit → ServiceUnit → Type 0
  Apart u v =
      (str_eq (h.unit_name v.deployment) (h.unit_name u.deployment) ≡ false)
      × (str_eq v.env_path u.env_path ≡ false)
      × (str_eq v.deployment u.deployment ≡ false)

  -- The unit is in one node as it is in the other.
  pub record Kept (v : ServiceUnit) (n n' : Node Sys) : Type 0 where
    pub file : n'.files v.env_path ≡ n.files v.env_path
    pub state :
        h.active_state (h.unit_name v.deployment) n'.sys
        ≡ h.active_state (h.unit_name v.deployment) n.sys
    pub verdict : n'.asserted v.deployment ≡ n.asserted v.deployment

  pub Kept-refl : (v : ServiceUnit) (n : Node Sys) → Kept v n n
  Kept-refl v n = record { file = refl; state = refl; verdict = refl }

  pub Kept-trans :
      (v : ServiceUnit) (n n' n'' : Node Sys) → Kept v n n' → Kept v n' n'' → Kept v n n''
  Kept-trans v n n' n'' a b = record {
    file = b.file ∙ a.file;
    state = b.state ∙ a.state;
    verdict = b.verdict ∙ a.verdict;
  }

  set_text-other :
      {A : Type 0} (f : String → A) (k j : String) (x : A)
      → str_eq j k ≡ false
      → set_text f k x j ≡ f j
  unfolding set_text
  set_text-other f k j x e = rw e

  module _ {own : String → Bool} (g : Governed own) (u v : ServiceUnit) (a : Apart u v) where
    concluded :
        (n : Node Sys) (x : String)
        → Kept v n (record n { asserted = set_text n.asserted u.deployment x })
    concluded n x = record {
      file = refl;
      state = refl;
      verdict = set_text-other n.asserted u.deployment v.deployment x a.2;
    }

    concluded_again :
        (n : Node Sys) (x : String)
        → Kept v n
            (record n { asserted = set_text (set_text n.asserted u.deployment "") u.deployment x })
    concluded_again n x =
        let m : Node Sys = record n { asserted = set_text n.asserted u.deployment "" } in
        Kept-trans v n m (record m { asserted = set_text m.asserted u.deployment x })
          (concluded n "") (concluded m x)

    conclude-Kept :
        (action : Action) (acted forced : Bool) (n : Node Sys)
        → Kept v n (conclude h u action acted forced n).2
    unfolding conclude
    conclude-Kept action true forced n = elim (Option-cases (h.verify_egress u.deployment n.sys)) [
      | inl e ↦ ground (arith, e, concluded n "", concluded_again n "inconclusive")
      | inr (x, e) ↦ ground (arith, e, concluded n "", concluded_again n x)
    ]
    conclude-Kept action false forced n = elim (Option-cases (h.verify_egress u.deployment n.sys)) [
      | inl e ↦ ground (arith, e, concluded n "inconclusive")
      | inr (x, e) ↦ ground (arith, e, concluded n x)
    ]

    commanded :
        (n : Node Sys) (s : Sys)
        → h.active_state (h.unit_name v.deployment) s
          ≡ h.active_state (h.unit_name v.deployment) n.sys
        → Kept v n (record n { sys = s })
    commanded n s e = record { file = refl; state = e; verdict = refl }

    start_unit-Kept : (forced : Bool) (n : Node Sys) → Kept v n (start_unit h u forced n).2
    unfolding start_unit
    start_unit-Kept forced n =
        let s = (h.start (h.unit_name u.deployment) n.sys).1 in
        let m : Node Sys = record n { sys = s } in
        let k = commanded n s (g.start_frame _ _ n.sys a.0) in
        let rest = Kept-trans v n m _ k (conclude-Kept Action.started true forced m) in
        ground (arith, k, rest)

    drive-Kept : (changed forced : Bool) (n : Node Sys) → Kept v n (drive h u changed forced n).2
    unfolding drive
    drive-Kept changed forced n =
        let name = h.unit_name u.deployment in
        let r = (h.restart name n.sys).1 in
        let c = (h.reset_failed name n.sys).1 in
        let nr : Node Sys = record n { sys = r } in
        let nc : Node Sys = record n { sys = c } in
        let kr = commanded n r (g.restart_frame _ _ n.sys a.0) in
        let kc = commanded n c (g.reset_frame _ _ n.sys a.0) in
        let asked = Kept-trans v n nr _ kr (conclude-Kept Action.restarted_asked true forced nr) in
        let moved =
          Kept-trans v n nr _ kr (conclude-Kept Action.restarted_changed true forced nr) in
        let again = Kept-trans v n nc _ kc (start_unit-Kept forced nc) in
        let first = start_unit-Kept forced n in
        let still = conclude-Kept Action.nothing false forced n in
        ground (arith, kr, kc, asked, moved, again, first, still)

    write_env_file-Kept : (n : Node Sys) → Kept v n (write_env_file h u n).1
    unfolding write_env_file
    write_env_file-Kept n =
        let other = set_text-other n.files u.env_path v.env_path (some u.rendered) a.1 in
        ground (arith, other)

    configured-Kept :
        (forced : Bool) (x : Option Bool × Node Sys) → Kept v x.1 (configured h u forced x).2
    unfolding configured
    configured-Kept forced (none, n) = Kept-refl v n
    configured-Kept forced (some changed, n) = drive-Kept changed forced n

    fetched-Kept :
        (forced : Bool) (n : Node Sys) (x : Bool × Sys)
        → h.active_state (h.unit_name v.deployment) x.1
          ≡ h.active_state (h.unit_name v.deployment) n.sys
        → Kept v n (fetched h u forced n x).2
    unfolding fetched
    fetched-Kept forced n (false, s) e = commanded n s e
    fetched-Kept forced n (true, s) e =
        let m : Node Sys = record n { sys = s } in
        let w = write_env_file h u m in
        Kept-trans v n m _ (commanded n s e)
          (Kept-trans v m w.1 _ (write_env_file-Kept m) (configured-Kept forced w))

    pub reconcile_unit-Kept : (p : Plan) (n : Node Sys) → Kept v n (reconcile_unit h p u n).2
    unfolding reconcile_unit
    reconcile_unit-Kept p n =
        let same = Kept-refl v n in
        let served =
          fetched-Kept (has p.restart u.deployment) n (h.ensure_image u.image n.sys)
            (g.image_frame _ _ n.sys) in
        elim (Option-cases (built_state p.prepare u.deployment)) [
          | inl e ↦ ground (arith, e, served)
          | inr (x, e) ↦ ground (arith, e, served)
        ]

  -- The loop over other units leaves the unit alone.
  pub reconcile_units-Kept :
      {own : String → Bool}
      → Governed own
      → (p : Plan) (v : ServiceUnit) (us : List ServiceUnit) (n : Node Sys)
      → All (λ u. Apart u v) us
      → Kept v n (reconcile_units h p us n).2
  unfolding reconcile_units
  reconcile_units-Kept g p v [] n a = Kept-refl v n
  reconcile_units-Kept g p v (u ∷ us) n a =
      let m = (reconcile_unit h p u n).2 in
      Kept-trans v n m _ (reconcile_unit-Kept g u v a.0 p n) (reconcile_units-Kept g p v us m a.1)
