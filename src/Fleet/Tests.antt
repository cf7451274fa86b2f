-- ===== src/Fleet/Tests.antt =====
-- Witnesses of the theorems on rolls.
use nodary.Prelude.{true, none, ◌≡◌, ◌≢◌, refl, List, [], ◌∷◌, inl, inr}
use nodary.Identity.Role.{contains}
use nodary.Fleet.Nodes.{Node, departed, node_states, node_checks}
use nodary.Fleet.Restarts.{
  Replica, Request, request_restart, request_from, upsert, same_key, offered_restarts, offered_from,
  any_withholds, withholds,
}
use nodary.Fleet.Restarts.Rolls.Spaced.{Mem}
use nodary.Fleet.Restarts.Rolls.{Reach, offered_restarts-one, offered_restarts-some}

abbrev replicas : List Replica
replicas =
    record { id = "d1"; node = "n1"; state = "ready" }
    ∷ record { id = "d2"; node = "n2"; state = "ready" }
    ∷ []

abbrev table : List Request
table = request_restart "roll_1" replicas []

abbrev first : Request
first = record { node = "n1"; deployment = "d1"; roll = "roll_1"; sequence = 0 }

abbrev second : Request
second = record { node = "n2"; deployment = "d2"; roll = "roll_1"; sequence = 1 }

table_is : table ≡ first ∷ second ∷ []
unfolding request_restart request_from upsert same_key
table_is = refl

n1_is_offered_d1 : offered_restarts "n1" (first ∷ second ∷ []) ≡ "d1" ∷ []
unfolding offered_restarts offered_from any_withholds withholds
n1_is_offered_d1 = refl

n2_waits : offered_restarts "n2" (first ∷ second ∷ []) ≡ []
unfolding offered_restarts offered_from any_withholds withholds
n2_waits = refl

offered_restarts-some_example :
    (r' : Request) × Mem r' (first ∷ second ∷ [])
    × (r'.roll ≡ "roll_1")
    × Mem r'.deployment (offered_restarts r'.node (first ∷ second ∷ []))
offered_restarts-some_example = offered_restarts-some (first ∷ second ∷ []) second (inr (inl refl))

is_offered : Mem "d1" (offered_restarts "n1" table)
unfolding request_restart request_from upsert same_key offered_restarts offered_from any_withholds
    withholds
is_offered = inl refl

offered_restarts-one_example :
    (r : Request) × (r' : Request) × Mem r table
    × Mem r' table
    × (r.node ≡ "n1")
    × (r.deployment ≡ "d1")
    × (r'.node ≡ "n1")
    × (r'.deployment ≡ "d1")
    × (r.roll ≡ r'.roll → r.roll ≢ "" → r ≡ r')
offered_restarts-one_example =
    offered_restarts-one (Reach.requested Reach.empty "roll_1" replicas tt) "n1" "n1" "d1" "d1"
      is_offered is_offered

-- A node that waits for approval.
abbrev waiting : Node
waiting = record { state = "pending"; approved_by = none; approved_at = none; departed_at = none }

passes : node_checks waiting ≡ true
unfolding node_checks contains
passes = refl

is_state : contains node_states departed ≡ true
unfolding contains
is_state = refl
