-- ===== src/Fleet/Restarts/Rolls/Spaced.antt =====
-- The rows of restart_request that are apart: of a roll, no two with one sequence number
-- (internal/fleet/transition.go).
use nodary.Prelude.{
  ℕ, ◌+◌, ◌<◌, ◌≡◌, ◌≢◌, refl, sym, ◌∙◌, subst, String, ◌&&◌, List, [], ◌∷◌, str_eq, ◌⊎◌, inl, inr,
  All, Bool-cases, arith,
}
use nodary.Fleet.Restarts.{Replica, Request, same_key, upsert, request_from, restart_done}

-- An element of the list.
abbrev pub Mem : {A : Type 0} → A → List A → Type 0
Mem a [] = ⊥
Mem a (x ∷ xs) = (x ≡ a) ⊎ Mem a xs

pub All-Mem : {A : Type 0} (P : A → Type 0) (a : A) (xs : List A) → Mem a xs → All P xs → P a
All-Mem P a [] m _ = absurd m
All-Mem P a (x ∷ xs) (inl e) (p, _) = subst P e p
All-Mem P a (x ∷ xs) (inr m) (_, ps) = All-Mem P a xs m ps

-- Two requests of one named roll have different numbers.
abbrev pub Apart : Request → Request → Type 0
Apart a b = a.roll ≡ b.roll → (a.roll ≡ "") ⊎ (a.sequence ≢ b.sequence)

abbrev pub IsApart : List Request → Type 0
IsApart [] = Unit
IsApart (r ∷ rows) = All (Apart r) rows × IsApart rows

-- The rows of a roll that is being written have the numbers below `i`.
abbrev Earlier : String → ℕ → Request → Type 0
Earlier roll i r = r.roll ≡ roll → r.sequence < i

All-upsert :
    (P : Request → Type 0) (q : Request) (rows : List Request)
    → P q
    → All P rows
    → All P (upsert q rows)
unfolding upsert
All-upsert P q [] p _ = (p, tt)
All-upsert P q (r ∷ rows) p (pr, ps) = elim (Bool-cases (same_key r q)) [
  | inl e ↦ rw e (p, ps)
  | inr e ↦ rw e (pr, All-upsert P q rows p ps)
]

Earlier-Apart :
    (roll : String) (q : Request)
    → q.roll ≡ roll
    → (rows : List Request) → All (Earlier roll q.sequence) rows
    → All (Apart q) rows
Earlier-Apart roll q e [] _ = tt
Earlier-Apart roll q e (r ∷ rows) (p, ps) =
    ((λ h. inr (λ s. absurd (omega (arith, s, p (sym h ∙ e))))), Earlier-Apart roll q e rows ps)

IsApart-upsert :
    (roll : String) (q : Request)
    → q.roll ≡ roll
    → (rows : List Request) → All (Earlier roll q.sequence) rows
    → IsApart rows
    → IsApart (upsert q rows)
unfolding upsert
IsApart-upsert roll q e [] _ _ = (tt, tt)
IsApart-upsert roll q e (r ∷ rows) (p, ps) (a, k) = elim (Bool-cases (same_key r q)) [
  | inl h ↦ rw h (Earlier-Apart roll q e rows ps, k)
  | inr h ↦ rw h (
    All-upsert (Apart r) q rows (λ s. inr (λ n. absurd (omega (arith, n, p (s ∙ e))))) a,
    IsApart-upsert roll q e rows ps k,
  )
]

All-weaken :
    (roll : String) (i : ℕ) (rows : List Request)
    → All (Earlier roll i) rows
    → All (Earlier roll (i + 1)) rows
All-weaken roll i [] _ = tt
All-weaken roll i (r ∷ rows) (p, ps) = ((λ e. omega (arith, p e)), All-weaken roll i rows ps)

pub request_from-IsApart :
    (roll : String) (i : ℕ) (replicas : List Replica) (rows : List Request)
    → All (Earlier roll i) rows
    → IsApart rows
    → IsApart (request_from roll i replicas rows)
unfolding request_from
request_from-IsApart roll i [] rows p a = a
request_from-IsApart roll i (r ∷ replicas) rows p a =
    let q : Request = record { node = r.node; deployment = r.id; roll = roll; sequence = i } in
    request_from-IsApart roll (i + 1) replicas (upsert q rows)
      (All-upsert (Earlier roll (i + 1)) q rows (λ e. omega arith) (All-weaken roll i rows p))
      (IsApart-upsert roll q refl rows p a)

pub fresh-Earlier :
    (roll : String) (rows : List Request)
    → All (λ r. r.roll ≢ roll) rows
    → All (Earlier roll 0) rows
fresh-Earlier roll [] _ = tt
fresh-Earlier roll (r ∷ rows) (p, ps) = ((λ e. absurd (p e)), fresh-Earlier roll rows ps)

All-done :
    (P : Request → Type 0) (node d : String) (rows : List Request)
    → All P rows
    → All P (restart_done node d rows)
unfolding restart_done
All-done P node d [] _ = tt
All-done P node d (r ∷ rows) (p, ps) =
    elim (Bool-cases (str_eq r.node node && str_eq r.deployment d)) [
      | inl e ↦ rw e (All-done P node d rows ps)
      | inr e ↦ rw e (p, All-done P node d rows ps)
    ]

pub IsApart-done :
    (node d : String) (rows : List Request) → IsApart rows → IsApart (restart_done node d rows)
unfolding restart_done
IsApart-done node d [] _ = tt
IsApart-done node d (r ∷ rows) (p, ps) =
    elim (Bool-cases (str_eq r.node node && str_eq r.deployment d)) [
      | inl e ↦ rw e (IsApart-done node d rows ps)
      | inr e ↦ rw e (All-done (Apart r) node d rows p, IsApart-done node d rows ps)
    ]
