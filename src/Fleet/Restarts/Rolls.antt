-- ===== src/Fleet/Restarts/Rolls.antt =====
-- `OfferedRestarts` of internal/fleet/transition.go over the tables that `RequestRestart` and the
-- reports of nodes produce.
pub mod Spaced
use nodary.Prelude.{
  ℕ, zero, suc, ◌+◌, ◌≤◌, ◌<◌, ◌≡◌, ◌≢◌, refl, sym, ap, ◌∙◌, subst, String, true, false, ◌&&◌, not,
  List, [], ◌∷◌, str_eq, eq_iff, ◌⊎◌, inl, inr, All, Bool-cases, arith,
}
use nodary.Fleet.Restarts.{
  Replica, Request, same_key, upsert, request_from, request_restart, withholds, any_withholds,
  offered_from, offered_restarts, restart_done,
}
use nodary.Fleet.Restarts.Rolls.Spaced.{
  Mem, All-Mem, Apart, IsApart, request_from-IsApart, fresh-Earlier, IsApart-done,
}

-- The tables that requests, each under a roll id not in the table, and reports produce.
pub data Reach : List Request → Type 0 where
  empty : Reach []
  requested :
      {rows : List Request}
      → Reach rows
      → (roll : String) (replicas : List Replica) → All (λ r. r.roll ≢ roll) rows
      → Reach (request_restart roll replicas rows)
  done : {rows : List Request} → Reach rows → (node d : String) → Reach (restart_done node d rows)

Reach-IsApart : {rows : List Request} → Reach rows → IsApart rows
unfolding request_restart
Reach-IsApart Reach.empty = tt
Reach-IsApart (Reach.requested {rows = rows} r roll replicas f) =
    request_from-IsApart roll 0 replicas rows (fresh-Earlier roll rows f) (Reach-IsApart r)
Reach-IsApart (Reach.done {rows = rows} r node d) = IsApart-done node d rows (Reach-IsApart r)

any_withholds-Mem :
    (rows : List Request) (r e : Request)
    → Mem e rows
    → any_withholds rows r ≡ false
    → withholds e r ≡ false
unfolding any_withholds
any_withholds-Mem [] r e m h = absurd m
any_withholds-Mem (x ∷ xs) r e (inl q) h =
    subst (λ (y : Request). withholds y r ≡ false) q (ground (arith, h))
any_withholds-Mem (x ∷ xs) r e (inr m) h = any_withholds-Mem xs r e m (ground (arith, h))

any_withholds-true :
    (rows : List Request) (r : Request)
    → any_withholds rows r ≡ true
    → (e : Request) × Mem e rows × (withholds e r ≡ true)
unfolding any_withholds
any_withholds-true [] r h = absurd (ground (arith, h))
any_withholds-true (x ∷ rows) r h = elim (Bool-cases (withholds x r)) [
  | inl k ↦ (x, inl refl, k)
  | inr k ↦ let (e, m, w) = any_withholds-true rows r (ground (arith, h, k)) in (e, inr m, w)
]

-- The rows behind an answer.
offered_from-Mem :
    (table : List Request) (node : String) (rows : List Request) (d : String)
    → Mem d (offered_from table node rows)
    → (r : Request) × Mem r rows
      × (r.node ≡ node)
      × (r.deployment ≡ d)
      × (any_withholds table r ≡ false)
unfolding offered_from
offered_from-Mem table node [] d m = absurd m
offered_from-Mem table node (r ∷ rows) d m =
    elim (Bool-cases (str_eq r.node node && not (any_withholds table r))) [
      | inl e ↦ elim (rw e at m) [
        | inl q ↦ (r, inl refl, ground (arith, e, eq_iff r.node node), q, ground (arith, e))
        | inr m' ↦
            let (r', k, n, z, w) = offered_from-Mem table node rows d m' in (r', inr k, n, z, w)
      ]
      | inr e ↦
          let (r', k, n, z, w) = offered_from-Mem table node rows d (rw e at m) in
          (r', inr k, n, z, w)
    ]

offered_from-answer :
    (table rows : List Request) (r : Request)
    → Mem r rows
    → any_withholds table r ≡ false
    → Mem r.deployment (offered_from table r.node rows)
unfolding offered_from
offered_from-answer table [] r m w = absurd m
offered_from-answer table (x ∷ rows) r (inl e) w =
    let node : str_eq x.node r.node ≡ true =
      ground (arith, eq_iff x.node r.node, ap (λ (y : Request). y.node) e) in
    let free : any_withholds table x ≡ false = ap (λ (y : Request). any_withholds table y) e ∙ w in
    rw (node, free) (inl (ap (λ (y : Request). y.deployment) e))
offered_from-answer table (x ∷ rows) r (inr m) w =
    elim (Bool-cases (str_eq x.node r.node && not (any_withholds table x))) [
      | inl e ↦ rw e (inr (offered_from-answer table rows r m w))
      | inr e ↦ rw e (offered_from-answer table rows r m w)
    ]

Apart-Mem :
    (rows : List Request)
    → IsApart rows
    → (a b : Request) → Mem a rows
    → Mem b rows
    → a.roll ≡ b.roll
    → a.roll ≢ ""
    → a.sequence ≡ b.sequence
    → a ≡ b
Apart-Mem [] k a b m m' e n s = absurd m
Apart-Mem (x ∷ rows) k a b (inl p) (inl q) e n s = sym p ∙ q
Apart-Mem (x ∷ rows) (p, k) a b (inl q) (inr m) e n s =
    elim (All-Mem (Apart x) b rows m p (ap (λ (y : Request). y.roll) q ∙ e)) [
      | inl z ↦ absurd (n (sym (ap (λ (y : Request). y.roll) q) ∙ z))
      | inr z ↦ absurd (z (ap (λ (y : Request). y.sequence) q ∙ s))
    ]
Apart-Mem (x ∷ rows) (p, k) a b (inr m) (inl q) e n s =
    elim (All-Mem (Apart x) a rows m p (ap (λ (y : Request). y.roll) q ∙ sym e)) [
      | inl z ↦ absurd (n (e ∙ sym (ap (λ (y : Request). y.roll) q) ∙ z))
      | inr z ↦ absurd (z (ap (λ (y : Request). y.sequence) q ∙ sym s))
    ]
Apart-Mem (x ∷ rows) (p, k) a b (inr m) (inr m') e n s = Apart-Mem rows k a b m m' e n s

not_withheld-le :
    (e r : Request)
    → e.roll ≡ r.roll
    → e.roll ≢ ""
    → withholds e r ≡ false
    → r.sequence ≤ e.sequence
unfolding withholds
not_withheld-le e r h n w =
    let same : str_eq e.roll r.roll ≡ true = ground (arith, h, eq_iff e.roll r.roll) in
    let named : str_eq e.roll "" ≡ false = elim (Bool-cases (str_eq e.roll "")) [
      | inl z ↦ absurd (n (ground (arith, z, eq_iff e.roll "")))
      | inr z ↦ z
    ] in
    ground (arith, same, named, w)

-- Of a named roll at most one request is on offer at any time, over all nodes: two restarts on
-- offer to any two nodes that belong to one roll are the same row of the table.
pub offered_restarts-one :
    {rows : List Request}
    → Reach rows
    → (node node' d d' : String) → Mem d (offered_restarts node rows)
    → Mem d' (offered_restarts node' rows)
    → (r : Request) × (r' : Request) × Mem r rows
      × Mem r' rows
      × (r.node ≡ node)
      × (r.deployment ≡ d)
      × (r'.node ≡ node')
      × (r'.deployment ≡ d')
      × (r.roll ≡ r'.roll → r.roll ≢ "" → r ≡ r')
unfolding offered_restarts
offered_restarts-one {rows = rows} reach node node' d d' m m' =
    let (r, k, n, e, w) = offered_from-Mem rows node rows d m in
    let (r', k', n', e', w') = offered_from-Mem rows node' rows d' m' in
    (
      r,
      r',
      k,
      k',
      n,
      e,
      n',
      e',
      λ h z.
          let le = not_withheld-le r r' h z (any_withholds-Mem rows r' r k w') in
          let ge =
            not_withheld-le r' r (sym h) (λ x. z (h ∙ x)) (any_withholds-Mem rows r r' k' w) in
          Apart-Mem rows (Reach-IsApart reach) r r' k k' h z (omega (arith, le, ge)),
    )

withholds-lt :
    (e r : Request) → withholds e r ≡ true → (e.roll ≡ r.roll) × (e.sequence < r.sequence)
unfolding withholds
withholds-lt e r w = (ground (arith, w, eq_iff e.roll r.roll), ground (arith, w))

-- Down the numbers of a roll there is one that nothing withholds.
first_free :
    (fuel : ℕ) (rows : List Request) (r : Request)
    → r.sequence < fuel
    → Mem r rows
    → (r' : Request) × Mem r' rows × (r'.roll ≡ r.roll) × (any_withholds rows r' ≡ false)
first_free zero rows r h m = absurd (omega (arith, h))
first_free (suc fuel) rows r h m = elim (Bool-cases (any_withholds rows r)) [
  | inr w ↦ (r, m, refl, w)
  | inl w ↦
      let (e, k, v) = any_withholds-true rows r w in
      let (q, l) = withholds-lt e r v in
      let (r', m', q', w') = first_free fuel rows e (omega (arith, h, l)) k in (r', m', q' ∙ q, w')
]

-- A roll never waits for nothing: while any row of it is in the table, some row of it is on offer
-- to its node.
pub offered_restarts-some :
    (rows : List Request) (r : Request)
    → Mem r rows
    → (r' : Request) × Mem r' rows
      × (r'.roll ≡ r.roll)
      × Mem r'.deployment (offered_restarts r'.node rows)
unfolding offered_restarts
offered_restarts-some rows r m =
    let (r', m', q, w) = first_free (suc r.sequence) rows r (omega arith) m in
    (r', m', q, offered_from-answer rows rows r' m' w)
