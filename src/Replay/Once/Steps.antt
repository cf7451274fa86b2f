-- ===== src/Replay/Once/Steps.antt =====
-- Claims, answers and crashes on a key of internal/replay/replay.go, step by step.
use nodary.Prelude.{
  ℕ, suc, ◌+◌, ◌-◌, ◌≤◌, ◌<◌, ◌≡◌, refl, sym, subst, String, true, false, Option, none, some, ◌⊎◌,
  inl, inr, List, [], ◌∷◌, ◌++◌, ltb, ◌==◌, str_eq, eq_iff, if◌then◌else◌, Bool-cases, Option-cases,
  arith,
}
use nodary.Replay.{
  ClaimKey, Row, window, same, put, yours, insert, claim, finish, release, is_success, complete,
}

-- How many of these requests carry the key.
abbrev pub count : ClaimKey → List ClaimKey → ℕ
count x [] = 0
count x (t ∷ ts) = (if same x t then 1 else 0) + count x ts

abbrev pub Table : Type 0
Table = ClaimKey → Option Row

-- Within `window` after the moment `opened`: a handler starts when its claim succeeds; it ends with
-- a status, and its response is recorded or its key is released; or its process dies. `running`
-- are the handlers that run, `done` those that ended with a recorded success.
pub data Step (opened : ℕ)
    : Table → List ClaimKey → List ClaimKey → Table → List ClaimKey → List ClaimKey → Type 0 where
  starts :
      (now : ℕ) (t : ClaimKey) (request : String) (table table' : Table)
      (running done : List ClaimKey)
      → opened ≤ now
      → now ≤ opened + window
      → claim now t request table ≡ yours table'
      → Step opened table running done table' (t ∷ running) done
  records :
      (t : ClaimKey) (status : ℕ) (body : String) (table : Table)
      (before after done : List ClaimKey)
      → is_success status ≡ true
      → Step opened table
          (before ++ (t ∷ after))
          done
          (complete t status (some body) table)
          (before ++ after)
          (t ∷ done)
  fails :
      (t : ClaimKey) (status : ℕ) (sealed : Option String) (table : Table)
      (before after done : List ClaimKey)
      → (is_success status ≡ false) ⊎ (sealed ≡ none)
      → Step opened table
          (before ++ (t ∷ after))
          done
          (complete t status sealed table)
          (before ++ after)
          done
  dies :
      (t : ClaimKey) (table : Table) (before after done : List ClaimKey)
      → Step opened table (before ++ (t ∷ after)) done table (before ++ after) done

pub data Reach (opened : ℕ) : Table → List ClaimKey → List ClaimKey → Type 0 where
  empty : Reach opened (λ t. none) [] []
  steps :
      {table : Table} {running done : List ClaimKey} {table' : Table}
      {running' done' : List ClaimKey}
      → Reach opened table running done
      → Step opened table running done table' running' done'
      → Reach opened table' running' done'

-- The row of a key against the handlers of the key.
abbrev pub Fits : ℕ → Option Row → ℕ → ℕ → Type 0
Fits opened none n d = n + d ≡ 0
Fits opened (some r) n d =
    (n + d ≤ 1) × (r.status ≡ 0 → d ≡ 0) × (0 < r.status → n ≡ 0) × (opened ≤ r.created_at)

abbrev pub IsOnce : ℕ → Table → List ClaimKey → List ClaimKey → Type 0
IsOnce opened table running done =
    (x : ClaimKey) → Fits opened (table x) (count x running) (count x done)

same_sound : (a b : ClaimKey) → same a b ≡ true → a ≡ b
same_sound a b e =
    let k : a.key ≡ b.key = ground (arith, e, eq_iff a.key b.key) in
    let p : a.principal ≡ b.principal = ground (arith, e, eq_iff a.principal b.principal) in
    cc (k, p)

count-remove :
    (x t : ClaimKey) (before after : List ClaimKey)
    → count x (before ++ (t ∷ after)) ≡ (if same x t then 1 else 0) + count x (before ++ after)
count-remove x t [] after = refl
count-remove x t (y ∷ before) after = omega (arith, count-remove x t before after)

-- A row stays as it is, or is written anew under its key.
pub put-IsOnce :
    (opened : ℕ) (table : Table) (t : ClaimKey) (row : Option Row)
    (running done running' done' : List ClaimKey)
    → IsOnce opened table running done
    → Fits opened row (count t running') (count t done')
    → ((x : ClaimKey)
        → same x t ≡ false
        → (count x running' ≡ count x running) × (count x done' ≡ count x done))
    → IsOnce opened (put table t row) running' done'
unfolding put
put-IsOnce opened table t row running done running' done' i f o x = elim (Bool-cases (same x t)) [
  | inl e ↦ rw e (
      subst (λ (y : ClaimKey). Fits opened row (count y running') (count y done'))
        (sym (same_sound x t e)) f)
  | inr e ↦ rw e (
      subst (λ (n : ℕ). Fits opened (table x) n (count x done')) (sym (o x e).0)
        (subst (λ (d : ℕ). Fits opened (table x) (count x running) d) (sym (o x e).1) (i x)))
]

pub claim-yours :
    (opened now : ℕ) (t : ClaimKey) (request : String) (table table' : Table)
    → now ≤ opened + window
    → claim now t request table ≡ yours table'
    → ((r : Row) → table t ≡ some r → opened ≤ r.created_at)
    → (table t ≡ none) × (insert now t request table ≡ yours table')
unfolding claim
claim-yours opened now t request table table' h e fresh = elim (Option-cases (table t)) [
  | inl q ↦ (q, rw (claim, q) at e)
  | inr (r, q) ↦
      let young : ltb r.created_at (now - window) ≡ false = ground (arith, h, fresh r q) in
      elim (Bool-cases (str_eq r.request request)) [
        | inr k ↦ absurd (cc (rw (claim, q, young, k) at e))
        | inl k ↦ elim (Bool-cases (r.status == 0)) [
          | inl z ↦ absurd (cc (rw (claim, q, young, k, z) at e))
          | inr z ↦ absurd (cc (rw (claim, q, young, k, z) at e))
        ]
      ]
]

pub same_refl : (t : ClaimKey) → same t t ≡ true
same_refl t = ground (arith, eq_iff t.key t.key, eq_iff t.principal t.principal)

pub Fits-fresh :
    (opened : ℕ) (row : Option Row) (n d : ℕ)
    → Fits opened row n d
    → (r : Row) → row ≡ some r
    → opened ≤ r.created_at
Fits-fresh opened none n d f r e = absurd (cc e)
Fits-fresh opened (some r') n d (_, _, _, f) r e =
    let q : r' ≡ r = cc e in subst (λ (w : Row). opened ≤ w.created_at) q f

Fits-fewer :
    (opened : ℕ) (row : Option Row) (n n' d : ℕ)
    → n' ≤ n
    → Fits opened row n d
    → Fits opened row n' d
Fits-fewer opened none n n' d h f = omega (arith, h, f)
Fits-fewer opened (some r) n n' d h (a, b, c, f) =
    (omega (arith, h, a), b, (λ p. omega (arith, h, c p)), f)

-- A key with a handler has a row without an answer.
Fits-running :
    (opened : ℕ) (row : Option Row) (n d : ℕ)
    → Fits opened row (suc n) d
    → (r : Row) × (row ≡ some r) × (r.status ≡ 0) × (n ≡ 0) × (d ≡ 0) × (opened ≤ r.created_at)
Fits-running opened none n d f = absurd (omega (arith, f))
Fits-running opened (some r) n d (a, b, c, f) = elim (Bool-cases (r.status == 0)) [
  | inl z ↦ let z' : r.status ≡ 0 = ground (arith, z) in (r, refl, z', omega (arith, a), b z', f)
  | inr z ↦ let z' : 0 < r.status = ground (arith, z) in absurd (omega (arith, c z'))
]

pub ended-Fits :
    (opened : ℕ) (table : Table) (t : ClaimKey) (before after done : List ClaimKey)
    → IsOnce opened table (before ++ (t ∷ after)) done
    → (r : Row) × (table t ≡ some r)
      × (r.status ≡ 0)
      × (count t (before ++ after) ≡ 0)
      × (count t done ≡ 0)
      × (opened ≤ r.created_at)
ended-Fits opened table t before after done i =
    let n : count t (before ++ (t ∷ after)) ≡ suc (count t (before ++ after)) =
      ground (arith, count-remove t t before after, same_refl t) in
    Fits-running opened (table t) (count t (before ++ after)) (count t done)
      (subst (λ (n : ℕ). Fits opened (table t) n (count t done)) n (i t))

pub ended-others :
    (x t : ClaimKey) (before after : List ClaimKey)
    → same x t ≡ false
    → count x (before ++ after) ≡ count x (before ++ (t ∷ after))
ended-others x t before after e = ground (arith, count-remove x t before after, e)

pub is_success-positive : (status : ℕ) → is_success status ≡ true → 0 < status
unfolding is_success
is_success-positive status s = ground (arith, s)

pub finish-found :
    (t : ClaimKey) (status : ℕ) (body : String) (table : Table) (r : Row)
    → is_success status ≡ true
    → table t ≡ some r
    → complete t status (some body) table
      ≡ put table t (some (record r { status = status; response = body }))
unfolding complete finish
finish-found t status body table r s q = rw (s, finish, q)

pub release-unanswered :
    (t : ClaimKey) (status : ℕ) (sealed : Option String) (table : Table) (r : Row)
    → (is_success status ≡ false) ⊎ (sealed ≡ none)
    → table t ≡ some r
    → r.status ≡ 0
    → complete t status sealed table ≡ put table t none
unfolding complete release
release-unanswered t status sealed table r s q z =
    let zero_status : (r.status == 0) ≡ true = ground (arith, z) in
    elim s [
      | inl e ↦ rw (e, release, q, zero_status)
      | inr e ↦ elim (Bool-cases (is_success status)) [
        | inl k ↦ rw (k, e, release, q, zero_status)
        | inr k ↦ rw (k, release, q, zero_status)
      ]
    ]

pub dies-IsOnce :
    (opened : ℕ) (t : ClaimKey) (table : Table) (before after done : List ClaimKey)
    → IsOnce opened table (before ++ (t ∷ after)) done
    → IsOnce opened table (before ++ after) done
dies-IsOnce opened t table before after done i x =
    Fits-fewer opened (table x) (count x (before ++ (t ∷ after))) (count x (before ++ after))
      (count x done) (omega (arith, count-remove x t before after)) (i x)

pub other : (x t : ClaimKey) (ts : List ClaimKey) → same x t ≡ false → count x (t ∷ ts) ≡ count x ts
other x t ts e = ground (arith, e)
