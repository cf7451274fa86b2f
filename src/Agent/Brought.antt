-- ===== src/Agent/Brought.antt =====
-- How `reconcileUnit` of internal/agent/reconcile.go brings a unit to where the plan wants it.
use nodary.Prelude.{
  String, Bool, true, false, ◌&&◌, ◌||◌, not, Option, none, some, str_eq, if◌then◌else◌, ◌≡◌, refl,
  sym, ap, ◌∙◌, ◌⊎◌, inl, inr, arith, Bool-cases, Option-cases, subst, eq_iff,
}
use nodary.Agent.Model.{
  Host, Plan, Node, has, ServiceUnit, Action, is_staged, built_state, conclusive, set_text,
}
use nodary.Agent.Units.{
  fetched, configured, reconcile_unit, serve, write_env_file, drive, start_unit, conclude,
  is_active,
}
use nodary.Agent.Converged.{Settled}

module _ {Sys : Type 0} (h : Host Sys) where
  -- The host does what it is asked to for the unit: its image is there, its file can be read and written,
  -- a command goes well and leaves it active, and an egress assertion that is asked for has an answer.
  pub record Obedient (u : ServiceUnit) : Type 0 where
    pub image : (s : Sys) → h.ensure_image u.image s ≡ (true, s)
    pub readable : h.read_fails u.env_path ≡ false
    pub writable : h.write_fails u.env_path ≡ false
    pub started :
        (s : Sys)
        → ((h.start (h.unit_name u.deployment) s).0 ≡ true)
          × (h.active_state (h.unit_name u.deployment) (h.start (h.unit_name u.deployment) s).1
              ≡ "active")
    pub restarted :
        (s : Sys)
        → ((h.restart (h.unit_name u.deployment) s).0 ≡ true)
          × (h.active_state (h.unit_name u.deployment) (h.restart (h.unit_name u.deployment) s).1
              ≡ "active")
    pub cleared : (s : Sys) → (h.reset_failed (h.unit_name u.deployment) s).0 ≡ true
    pub answered :
        (h.has_self ≡ false)
        ⊎ ((s : Sys)
            → (v : String) × (h.verify_egress u.deployment s ≡ some v) × (conclusive v ≡ true))

  -- What a round leaves of the unit.
  abbrev Up : ServiceUnit → Node Sys → Type 0
  Up u n =
      (n.files u.env_path ≡ some u.rendered)
      × (h.active_state (h.unit_name u.deployment) n.sys ≡ "active")
      × ((h.has_self ≡ false) ⊎ (conclusive (n.asserted u.deployment) ≡ true))

  set_text-same : {A : Type 0} (f : String → A) (k : String) (x : A) → set_text f k x k ≡ x
  unfolding set_text
  set_text-same f k x = ground (arith, eq_iff k k)

  seen :
      (u : ServiceUnit) (n : Node Sys)
      → h.active_state (h.unit_name u.deployment) n.sys ≡ "active"
      → str_eq (h.active_state (h.unit_name u.deployment) n.sys) "active" ≡ true
  seen u n a = ground (arith, a, eq_iff (h.active_state (h.unit_name u.deployment) n.sys) "active")

  conclude-Up :
      (u : ServiceUnit) (action : Action) (acted forced : Bool) (n : Node Sys)
      → Obedient u
      → n.files u.env_path ≡ some u.rendered
      → h.active_state (h.unit_name u.deployment) n.sys ≡ "active"
      → Up u (conclude h u action acted forced n).2
  unfolding conclude is_active
  conclude-Up u action true forced n o f a =
      let up = seen u n a in
      elim (Bool-cases h.has_self) [
        | inr k ↦ rw (conclude, up, k) (f, a, inl refl)
        | inl k ↦ elim o.answered [
          | inl off ↦ absurd (cc (k, off))
          | inr q ↦
              let (v, e, c) = q n.sys in
              let set : conclusive
                    (set_text (set_text n.asserted u.deployment "") u.deployment v u.deployment)
                  ≡ true =
                rw (set_text-same (set_text n.asserted u.deployment "") u.deployment v) c in
              elim (Bool-cases (conclusive ((set_text n.asserted u.deployment "") u.deployment))) [
                | inl w ↦ rw (conclude, up, k, w) (f, a, inr w)
                | inr w ↦ rw (conclude, up, k, w, e) (f, a, inr set)
              ]
        ]
      ]
  conclude-Up u action false forced n o f a =
      let up = seen u n a in
      elim (Bool-cases h.has_self) [
        | inr k ↦ rw (conclude, up, k) (f, a, inl refl)
        | inl k ↦ elim o.answered [
          | inl off ↦ absurd (cc (k, off))
          | inr q ↦
              let (v, e, c) = q n.sys in
              let set : conclusive (set_text n.asserted u.deployment v u.deployment) ≡ true =
                rw (set_text-same n.asserted u.deployment v) c in
              elim (Bool-cases (conclusive (n.asserted u.deployment))) [
                | inl w ↦ rw (conclude, up, k, w) (f, a, inr w)
                | inr w ↦ rw (conclude, up, k, w, e) (f, a, inr set)
              ]
        ]
      ]

  start_unit-Up :
      (u : ServiceUnit) (forced : Bool) (n : Node Sys)
      → Obedient u
      → n.files u.env_path ≡ some u.rendered
      → Up u (start_unit h u forced n).2
  unfolding start_unit
  start_unit-Up u forced n o f =
      let (ok, a) = o.started n.sys in
      rw (start_unit, ok)
        (conclude-Up u Action.started true forced
          (record n { sys = (h.start (h.unit_name u.deployment) n.sys).1 }) o f a)

  -- The unit is not one that systemd gave up on, unless a restart was asked for.
  abbrev pub Startable : ServiceUnit → Bool → Sys → Type 0
  Startable u forced s =
      (str_eq (h.active_state (h.unit_name u.deployment) s) "failed" ≡ false) ⊎ (forced ≡ true)

  drive-Up :
      (u : ServiceUnit) (changed forced : Bool) (n : Node Sys)
      → Obedient u
      → n.files u.env_path ≡ some u.rendered
      → Startable u forced n.sys
      → Up u (drive h u changed forced n).2
  unfolding drive
  drive-Up u changed forced n o f w =
      let name = h.unit_name u.deployment in
      let state = h.active_state name n.sys in
      let next : Node Sys = record n { sys = (h.restart name n.sys).1 } in
      let open_ : (str_eq state "failed" && not forced) ≡ false = elim w [
        | inl e ↦ ground (arith, e)
        | inr e ↦ ground (arith, e)
      ] in
      let idle : ((changed || forced) && false) ≡ false = ground arith in
      elim (Bool-cases (str_eq state "active")) [
        | inl up ↦ elim (Bool-cases (changed || forced)) [
          | inl k ↦
              let (ok, a) = o.restarted n.sys in
              rw (drive, open_, up, k, ok)
                (conclude-Up u
                  (if forced && not changed
                    then Action.restarted_asked
                    else Action.restarted_changed)
                  true forced next o f a)
          | inr k ↦
              let a : state ≡ "active" = ground (arith, up, eq_iff state "active") in
              rw (drive, open_, up, k) (conclude-Up u Action.nothing false forced n o f a)
        ]
        | inr down ↦ elim (Bool-cases (str_eq state "failed")) [
          | inl k ↦
              let asked : (true && not forced) ≡ false = rw k at open_ in
              rw (drive, asked, down, idle, k, o.cleared n.sys)
                (start_unit-Up u forced (record n { sys = (h.reset_failed name n.sys).1 }) o f)
          | inr k ↦ rw (drive, down, idle, k) (start_unit-Up u forced n o f)
        ]
      ]

  -- The file is written, or was right.
  write_env_file-Written :
      (u : ServiceUnit) (n : Node Sys)
      → Obedient u
      → (changed : Bool) × (n' : Node Sys) × (write_env_file h u n ≡ (some changed, n'))
        × (n'.sys ≡ n.sys)
        × (n'.files u.env_path ≡ some u.rendered)
  unfolding write_env_file
  write_env_file-Written u n o =
      let next : Node Sys = record n { files = set_text n.files u.env_path (some u.rendered) } in
      let set : next.files u.env_path ≡ some u.rendered =
        set_text-same n.files u.env_path (some u.rendered) in
      elim (Option-cases (n.files u.env_path)) [
        | inl k ↦ (true, next, rw (write_env_file, o.readable, o.writable, k), refl, set)
        | inr (text, k) ↦ elim (Bool-cases (str_eq text u.rendered)) [
          | inl e ↦
              let same : text ≡ u.rendered = ground (arith, e, eq_iff text u.rendered) in
              (false, n, rw (write_env_file, o.readable, k, e), refl, k ∙ ap some same)
          | inr e ↦ (true, next, rw (write_env_file, o.readable, o.writable, k, e), refl, set)
        ]
      ]

  serve-Up :
      (u : ServiceUnit) (forced : Bool) (n : Node Sys)
      → Obedient u
      → Startable u forced n.sys
      → Up u (serve h u forced n).2
  unfolding fetched configured
  serve-Up u forced n o w =
      let (changed, n', e, s, f) = write_env_file-Written u n o in
      let driven = drive-Up u changed forced n' o f (subst (λ x. Startable u forced x) (sym s) w) in
      subst (λ (x : Bool × Sys). Up u (fetched h u forced n x).2) (sym (o.image n.sys))
        (subst (λ (x : Option Bool × Node Sys). Up u (configured h u forced x).2) (sym e) driven)

  -- Where the host does what it is asked to for a unit (its image is there, its file can be read and
  -- written, each command for it goes well and a start or restart leaves it active, and an egress
  -- assertion is off or ends with an answer), its weights and its build are there, and systemd has not
  -- given up on it or its restart was asked for: after it is reconciled nothing is left to do for it
  -- under a plan that stages and prepares the same and asks for no restart of it.
  pub reconcile_unit-Settled :
      (p next : Plan) (u : ServiceUnit) (n : Node Sys)
      → Obedient u
      → is_staged p.stage u.model ≡ true
      → (built_state p.prepare u.deployment ≡ none)
        ⊎ (built_state p.prepare u.deployment ≡ some "prepared")
      → Startable u (has p.restart u.deployment) n.sys
      → next.stage ≡ p.stage
      → next.prepare ≡ p.prepare
      → has next.restart u.deployment ≡ false
      → Settled h next (reconcile_unit h p u n).2 u
  unfolding reconcile_unit
  reconcile_unit-Settled p next u n o staged built w ps pp r =
      let served = serve-Up u (has p.restart u.deployment) n o w in
      let after : Up u (reconcile_unit h p u n).2 = elim built [
        | inl b ↦ rw (reconcile_unit, staged, b) served
        | inr b ↦ rw (reconcile_unit, staged, b) served
      ] in
      record {
        staged = ap (λ z. is_staged z u.model) ps ∙ staged;
        built = elim built [
          | inl b ↦ inl (ap (λ z. built_state z u.deployment) pp ∙ b)
          | inr b ↦ inr (ap (λ z. built_state z u.deployment) pp ∙ b)
        ];
        image = o.image (reconcile_unit h p u n).2.sys;
        readable = o.readable;
        written = after.0;
        active = after.1;
        left_alone = r;
        verdict = after.2;
      }
