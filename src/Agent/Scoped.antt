-- ===== src/Agent/Scoped.antt =====
-- What `Reconcile` of internal/agent/reconcile.go may stop.
use nodary.Prelude.{String, true, false, some, List, ◌≡◌, ◌⊎◌}
use nodary.Agent.{names_of, unit_names}
use nodary.Agent.Model.{Host, Plan, has}

module _ {Sys : Type 0} (h : Host Sys) where
  -- What is stopped is listed and is not wanted.
  Stoppable : List String → List String → String → Type 0
  Stoppable wanted names x = (has wanted x ≡ false) × (has names x ≡ true)

  -- What may be said of a unit that a round stopped, where the deployments `running` run out of policy.
  abbrev pub Scoped : Plan → List String → String → Type 0
  Scoped p running x =
      (has (unit_names h p.units) x ≡ false)
      × ((p.maintenance_open ≡ true) ⊎ (has (names_of h running) x ≡ false))
      × ((s : Sys) × (names : List String) × (h.list_active s ≡ some names) × (has names x ≡ true))
