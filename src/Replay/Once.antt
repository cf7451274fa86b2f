-- ===== src/Replay/Once.antt =====
-- The handlers of one key over any interleaving of claims and ends: internal/replay/replay.go under
-- the middleware of internal/api/idempotency.go.
pub mod Steps
use nodary.Prelude.{
  ℕ, suc, ◌+◌, ◌-◌, ◌≤◌, ◌<◌, ◌≡◌, ◌≢◌, refl, sym, ap, ◌∙◌, subst, String, true, false, Option,
  none, some, ◌⊎◌, inl, inr, List, [], ◌∷◌, ◌++◌, ltb, ◌==◌, str_eq, eq_iff, if◌then◌else◌,
  Bool-cases, Option-cases, arith,
}
use nodary.Replay.{
  ClaimKey, Row, window, same, put, yours, replayed, key_reused, insert, claim, finish, release,
  is_success, complete,
}
use nodary.Replay.Once.Steps.{
  count, Table, Step, Reach, Fits, IsOnce, put-IsOnce, claim-yours, same_refl, Fits-fresh,
  ended-Fits, ended-others, is_success-positive, finish-found, release-unanswered, dies-IsOnce,
  other, starts, records, fails, dies, empty, steps,
}

Step-IsOnce :
    {opened : ℕ} {table : Table} {running done : List ClaimKey} {table' : Table}
    {running' done' : List ClaimKey}
    → Step opened table running done table' running' done'
    → IsOnce opened table running done
    → IsOnce opened table' running' done'
unfolding insert
Step-IsOnce {opened = opened} (Step.starts now t request table table' running done a b e) i =
    let (q, y) =
      claim-yours opened now t request table table' b e
        (Fits-fresh opened (table t) (count t running) (count t done) (i t)) in
    let row : Row = record { request = request; status = 0; response = ""; created_at = now } in
    let z : count t running + count t done ≡ 0 =
      subst (λ (o : Option Row). Fits opened o (count t running) (count t done)) q (i t) in
    let same_table : put table t (some row) ≡ table' = cc y in
    subst (λ (w : Table). IsOnce opened w (t ∷ running) done) same_table
      (put-IsOnce opened table t (some row) running done (t ∷ running) done i
        (ground (arith, z), (λ _. omega (arith, z)), (λ p. absurd (omega (arith, p))), a)
        (λ x n. (other x t running n, refl)))
Step-IsOnce {opened = opened} (Step.records t status body table before after done s) i =
    let (r, q, z, n, d, f) = ended-Fits opened table t before after done i in
    subst (λ (w : Table). IsOnce opened w (before ++ after) (t ∷ done))
      (sym (finish-found t status body table r s q))
      (put-IsOnce opened table t (some (record r { status = status; response = body }))
        (before ++ (t ∷ after)) done (before ++ after) (t ∷ done) i
        (
          ground (arith, n, d),
          (λ p. absurd (omega (arith, is_success-positive status s, p))),
          (λ _. n),
          f,
        )
        (λ x e. (ended-others x t before after e, other x t done e)))
Step-IsOnce {opened = opened} (Step.fails t status sealed table before after done s) i =
    let (r, q, z, n, d, f) = ended-Fits opened table t before after done i in
    let released : complete t status sealed table ≡ put table t none =
      release-unanswered t status sealed table r s q z in
    subst (λ (w : Table). IsOnce opened w (before ++ after) done) (sym released)
      (put-IsOnce opened table t none (before ++ (t ∷ after)) done (before ++ after) done i
        (omega (arith, n, d)) (λ x e. (ended-others x t before after e, refl)))
Step-IsOnce {opened = opened} (Step.dies t table before after done) i =
    dies-IsOnce opened t table before after done i

Reach-IsOnce :
    {opened : ℕ} {table : Table} {running done : List ClaimKey}
    → Reach opened table running done
    → IsOnce opened table running done
Reach-IsOnce Reach.empty x = refl
Reach-IsOnce (Reach.steps r step) x = Step-IsOnce step (Reach-IsOnce r) x

-- However claims, answers, failures and crashes interleave within the window of a key: the handlers
-- that run for a key of a principal and the recorded successes of it are at most one together.
pub Reach-once :
    {opened : ℕ} {table : Table} {running done : List ClaimKey}
    → Reach opened table running done
    → (x : ClaimKey) → count x running + count x done ≤ 1
Reach-once {opened = opened} {table = table} {running = running} {done = done} r x =
    at_most_one opened (table x) (Reach-IsOnce r x)
  where
    at_most_one :
        (opened : ℕ) (o : Option Row)
        → Fits opened o (count x running) (count x done)
        → count x running + count x done ≤ 1
    at_most_one opened none f = omega (arith, f)
    at_most_one opened (some row) (a, _, _, _) = a

put_same : (table : Table) (t : ClaimKey) (row : Option Row) → put table t row t ≡ row
unfolding put
put_same table t row = rw (same_refl t) refl

-- An answer that was recorded is given back, as it was recorded, to every repeat of the request
-- within the window, and a different request under the key is refused.
claim-complete :
    (now : ℕ) (t : ClaimKey) (request : String) (status : ℕ) (body : String) (table : Table)
    (r : Row) (other : String)
    → table t ≡ some r
    → r.request ≡ request
    → now ≤ r.created_at + window
    → is_success status ≡ true
    → (claim now t request (complete t status (some body) table)
        ≡ replayed (record { status = status; body = body }))
      × (other ≢ request → claim now t other (complete t status (some body) table) ≡ key_reused)
unfolding claim
claim-complete now t request status body table r other q e h s = (
  rw (claim, found, young, same_request, not_zero),
  λ d. rw (claim, found, young, other_request d),
)
  where
    answered : Row
    answered = record r { status = status; response = body }

    found : complete t status (some body) table t ≡ some answered
    found =
        ap (λ (w : Table). w t) (finish-found t status body table r s q)
        ∙ put_same table t (some answered)

    young : ltb answered.created_at (now - window) ≡ false
    young = ground (arith, h)

    same_request : str_eq answered.request request ≡ true
    same_request = ground (arith, e, eq_iff r.request request)

    other_request : other ≢ request → str_eq answered.request other ≡ false
    other_request d = elim (Bool-cases (str_eq r.request other)) [
      | inl k ↦ absurd (d (sym (ground (arith, k, eq_iff r.request other)) ∙ e))
      | inr k ↦ k
    ]

    not_zero : (answered.status == 0) ≡ false
    not_zero = ground (arith, is_success-positive status s)
