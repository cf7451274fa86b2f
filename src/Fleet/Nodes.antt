-- ===== src/Fleet/Nodes.antt =====
-- `Permission` and `Transition` of internal/fleet/transition.go, on the columns that move with the
-- state of a node, under the checks of the table in internal/store/migrations/0006_fleet.sql.
use nodary.Prelude.{
  ℕ, String, ◌≡◌, Bool, true, false, ◌&&◌, ◌||◌, not, Option, none, some, List, [], ◌∷◌, str_eq,
  eq_iff, if◌then◌else◌, inl, inr, Bool-cases, arith, refl, ap,
}
use nodary.Identity.Role.{contains}

abbrev pub approved : String
approved = "approved"

abbrev pub draining : String
draining = "draining"

abbrev pub departed : String
departed = "departed"

unfoldable pub permission : String → String
permission to = if str_eq to draining then "node.drain" else "node.approve"

pub record Node : Type 0 where
  pub state : String
  pub approved_by : Option String
  pub approved_at : Option ℕ
  pub departed_at : Option ℕ

abbrev pub node_states : List String
node_states = "pending" ∷ approved ∷ "ready" ∷ draining ∷ departed ∷ []

abbrev pub is_null : {A : Type 0} → Option A → Bool
is_null none = true
is_null (some a) = false

abbrev pub same_test : Bool → Bool → Bool
same_test true b = b
same_test false b = not b

-- The checks of the table on these columns.
unfoldable pub node_checks : Node → Bool
node_checks n =
    contains node_states n.state
    && (same_test (is_null n.approved_by) (is_null n.approved_at)
        && (not (str_eq n.state departed) || not (is_null n.departed_at)))

-- The row that the UPDATE would write. `by` is "" for a local principal.
unfoldable pub moved : ℕ → String → String → Node → Node
moved now to by n =
    if str_eq to approved
    then record n {
      state = to;
      approved_by = if str_eq by "" then none else some by;
      approved_at = if str_eq by "" then none else some now;
    }
    else if str_eq to departed
    then record n { state = to; departed_at = some now }
    else record n { state = to }

-- `none` where a check refuses the row.
unfoldable pub transition : ℕ → String → String → Node → Option Node
transition now to by n = if node_checks (moved now to by n) then some (moved now to by n) else none

moved-node_checks :
    (now : ℕ) (to by : String) (n : Node)
    → node_checks n ≡ true
    → contains node_states to ≡ true
    → node_checks (moved now to by n) ≡ true
unfolding moved node_checks
moved-node_checks now to by n c s = elim (Bool-cases (str_eq to approved)) [
  | inl a ↦
      let same : to ≡ approved = ground (arith, a, eq_iff to approved) in
      let stays : str_eq to departed ≡ false = ap (λ x. str_eq x departed) same in
      elim (Bool-cases (str_eq by "")) [
        | inl b ↦ rw (a, b, s, stays) refl
        | inr b ↦ rw (a, b, s, stays) refl
      ]
  | inr a ↦ elim (Bool-cases (str_eq to departed)) [
    | inl d ↦ rw (a, d, s) (ground (arith, pairs n c))
    | inr d ↦ rw (a, d, s) (ground (arith, d, pairs n c))
  ]
]
  where
    pairs :
        (n : Node)
        → node_checks n ≡ true
        → (same_test (is_null n.approved_by) (is_null n.approved_at) && true) ≡ true
    pairs n c = ground (arith, c)

moved-state : (now : ℕ) (to by : String) (n : Node) → (moved now to by n).state ≡ to
unfolding moved
moved-state now to by n = elim (Bool-cases (str_eq to approved)) [
  | inl a ↦ rw a refl
  | inr a ↦ elim (Bool-cases (str_eq to departed)) [
    | inl d ↦ rw (a, d) refl
    | inr d ↦ rw (a, d) refl
  ]
]

-- A transition to any state that a node can have never fails a check of the table, whatever state
-- the node was in and whoever approves: the node is then in that state.
transition-moved :
    (now : ℕ) (to by : String) (n : Node)
    → node_checks n ≡ true
    → contains node_states to ≡ true
    → (transition now to by n ≡ some (moved now to by n)) × ((moved now to by n).state ≡ to)
unfolding transition
transition-moved now to by n c s =
    (rw (moved-node_checks now to by n c s) refl, moved-state now to by n)
