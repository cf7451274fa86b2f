-- ===== src/Gateway/Limits/Tightest.antt =====
-- `limitsFor` against its contract, column by column.
use nodary.Prelude.{
  ℕ, zero, suc, ◌≤◌, ◌<◌, ◌≡◌, refl, sym, ◌∙◌, subst, true, false, ◌||◌, List, [], ◌∷◌, ltb, ◌==◌,
  ℤ, pos, negsuc, if◌then◌else◌, ◌⊎◌, inl, inr, All, Bool-cases, arith,
}
use nodary.Gateway.Limits.{
  Subject, Limit, Limits, Row, Principal, no_limit, no_limits, tighten, matches, tighten_row,
  reduce, limits_for,
}

-- One column of the loop of `limitsFor`.
column : Principal → (Row → ℤ) → Limit → List Row → Limit
column p c l [] = l
column p c l (r ∷ rows) =
    column p c (if matches p r.subject then tighten l (c r) r.subject else l) rows

-- The ceiling `l` is no weaker than the value of a row that applies: a value that is not positive
-- sets no ceiling.
abbrev pub Respects : Principal → (Row → ℤ) → Limit → Row → Type 0
Respects p c l r =
    (n : ℕ) → matches p r.subject ≡ true → c r ≡ pos (suc n) → (0 < l.value) × (l.value ≤ suc n)

-- A ceiling is the value of a row that applies, and its subject the subject of that row.
pub data SetBy (p : Principal) (c : Row → ℤ) (l : Limit) : List Row → Type 0 where
  here :
      {r : Row} {rows : List Row}
      → matches p r.subject ≡ true
      → c r ≡ pos l.value
      → l.subject ≡ r.subject
      → SetBy p c l (r ∷ rows)
  there : {r : Row} {rows : List Row} → SetBy p c l rows → SetBy p c l (r ∷ rows)

abbrev pub IsTightest : Principal → (Row → ℤ) → List Row → Limit → Type 0
IsTightest p c rows l = All (Respects p c l) rows × ((l ≡ no_limit) ⊎ SetBy p c l rows)

-- A later ceiling is no weaker than an earlier one.
abbrev Below : Limit → Limit → Type 0
Below l' l = 0 < l.value → (0 < l'.value) × (l'.value ≤ l.value)

tighten-Below : (l : Limit) (v : ℤ) (s : Subject) → Below (tighten l v s) l
unfolding tighten
tighten-Below l (negsuc n) s h = (h, ground arith)
tighten-Below l (pos zero) s h = (h, ground arith)
tighten-Below l (pos (suc n)) s h = ground arith

tighten-respects :
    (l : Limit) (n : ℕ) (s : Subject)
    → (0 < (tighten l (pos (suc n)) s).value) × ((tighten l (pos (suc n)) s).value ≤ suc n)
unfolding tighten
tighten-respects l n s = ground arith

tighten-cases :
    (l : Limit) (v : ℤ) (s : Subject)
    → (tighten l v s ≡ l) ⊎ ((v ≡ pos (tighten l v s).value) × ((tighten l v s).subject ≡ s))
unfolding tighten
tighten-cases l (negsuc n) s = inl refl
tighten-cases l (pos zero) s = inl refl
tighten-cases l (pos (suc n)) s = elim (Bool-cases ((l.value == 0) || ltb (suc n) l.value)) [
  | inl e ↦ inr (ground (arith, e))
  | inr e ↦ inl (rw e)
]

step-Below :
    (p : Principal) (c : Row → ℤ) (l : Limit) (r : Row)
    → Below (if matches p r.subject then tighten l (c r) r.subject else l) l
step-Below p c l r = elim (Bool-cases (matches p r.subject)) [
  | inl e ↦
      subst (λ (x : Limit). Below x l) {x = tighten l (c r) r.subject}
        {y = if matches p r.subject then tighten l (c r) r.subject else l} (rw e)
        (tighten-Below l (c r) r.subject)
  | inr e ↦
      subst (λ (x : Limit). Below x l) {x = l}
        {y = if matches p r.subject then tighten l (c r) r.subject else l} (rw e)
        (λ h. (h, ground arith))
]

column-Below :
    (p : Principal) (c : Row → ℤ) (l : Limit) (rows : List Row) → Below (column p c l rows) l
unfolding column
column-Below p c l [] h = (h, ground arith)
column-Below p c l (r ∷ rows) h =
    let s = step-Below p c l r h in
    let k =
      column-Below p c (if matches p r.subject then tighten l (c r) r.subject else l) rows s.0 in
    (k.0, ground (arith, k.1, s.1))

column-Respects :
    (p : Principal) (c : Row → ℤ) (l : Limit) (rows : List Row)
    → All (Respects p c (column p c l rows)) rows
unfolding column
column-Respects p c l [] = tt
column-Respects p c l (r ∷ rows) =
    (head, column-Respects p c (if matches p r.subject then tighten l (c r) r.subject else l) rows)
  where
    next : Limit
    next = if matches p r.subject then tighten l (c r) r.subject else l

    is_tightened :
        (n : ℕ)
        → matches p r.subject ≡ true
        → c r ≡ pos (suc n)
        → next ≡ tighten l (pos (suc n)) r.subject
    is_tightened n m e = rw (m, e)

    head : Respects p c (column p c next rows) r
    head n m e =
        let t = tighten-respects l n r.subject in
        let s : (0 < next.value) × (next.value ≤ suc n) =
          subst (λ (x : Limit). (0 < x.value) × (x.value ≤ suc n)) (sym (is_tightened n m e)) t in
        let k = column-Below p c next rows s.0 in (k.0, ground (arith, k.1, s.1))

column-SetBy :
    (p : Principal) (c : Row → ℤ) (l : Limit) (rows : List Row)
    → (column p c l rows ≡ l) ⊎ SetBy p c (column p c l rows) rows
unfolding column
column-SetBy p c l [] = inl refl
column-SetBy p c l (r ∷ rows) = elim (Bool-cases (matches p r.subject)) [
  | inl m ↦ elim (column-SetBy p c next rows) [
    | inr q ↦ inr (SetBy.there q)
    | inl q ↦ elim (tighten-cases l (c r) r.subject) [
      | inl e ↦ inl (q ∙ is_tightened m ∙ e)
      | inr e ↦ inr (
          subst (λ (x : Limit). SetBy p c x (r ∷ rows)) {x = tighten l (c r) r.subject}
            {y = column p c next rows} (sym (q ∙ is_tightened m)) (SetBy.here m e.0 e.1))
    ]
  ]
  | inr m ↦ elim (column-SetBy p c next rows) [
    | inr q ↦ inr (SetBy.there q)
    | inl q ↦ inl (q ∙ is_kept m)
  ]
]
  where
    next : Limit
    next = if matches p r.subject then tighten l (c r) r.subject else l

    is_tightened : matches p r.subject ≡ true → next ≡ tighten l (c r) r.subject
    is_tightened m = rw m

    is_kept : matches p r.subject ≡ false → next ≡ l
    is_kept m = rw m

column-IsTightest :
    (p : Principal) (c : Row → ℤ) (rows : List Row) → IsTightest p c rows (column p c no_limit rows)
column-IsTightest p c rows = (column-Respects p c no_limit rows, column-SetBy p c no_limit rows)

-- The four columns do not touch each other.
reduce_columns :
    (p : Principal) (l : Limits) (rows : List Row)
    → reduce p l rows ≡ record {
      rpm = column p (λ r. r.rpm) l.rpm rows;
      tpm = column p (λ r. r.tpm) l.tpm rows;
      daily = column p (λ r. r.daily_tokens) l.daily rows;
      concurrent = column p (λ r. r.max_concurrent) l.concurrent rows;
    }
unfolding reduce column tighten_row
reduce_columns p l [] = refl
reduce_columns p l (r ∷ rows) = elim (Bool-cases (matches p r.subject)) [
  | inl e ↦ rw (e, reduce_columns p (tighten_row l r) rows)
  | inr e ↦ rw (e, reduce_columns p l rows)
]

-- In each of the four columns the limits of a caller are the least positive value of the rows that
-- apply to the caller, whatever the order of the rows: no row that applies is exceeded, and a
-- ceiling is the value of a row that applies, under the subject of that row. Without a positive
-- value in the column there is no ceiling.
pub limits_for-IsTightest :
    (p : Principal) (rows : List Row)
    → IsTightest p (λ r. r.rpm) rows (limits_for p rows).rpm
      × IsTightest p (λ r. r.tpm) rows (limits_for p rows).tpm
      × IsTightest p (λ r. r.daily_tokens) rows (limits_for p rows).daily
      × IsTightest p (λ r. r.max_concurrent) rows (limits_for p rows).concurrent
unfolding limits_for
limits_for-IsTightest p rows =
    subst
      (λ (l : Limits).
        IsTightest p (λ r. r.rpm) rows l.rpm
        × IsTightest p (λ r. r.tpm) rows l.tpm
        × IsTightest p (λ r. r.daily_tokens) rows l.daily
        × IsTightest p (λ r. r.max_concurrent) rows l.concurrent)
      (sym (reduce_columns p no_limits rows))
      (
        column-IsTightest p (λ r. r.rpm) rows,
        column-IsTightest p (λ r. r.tpm) rows,
        column-IsTightest p (λ r. r.daily_tokens) rows,
        column-IsTightest p (λ r. r.max_concurrent) rows,
      )
