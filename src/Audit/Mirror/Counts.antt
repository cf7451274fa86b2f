-- ===== src/Audit/Mirror/Counts.antt =====
-- The numbers that two lists of records have and lack, of which `Compare` of
-- internal/audit/verify.go keeps count.
use nodary.Prelude.{
  ℕ, ◌+◌, ◌<◌, ◌≤◌, ◌≡◌, refl, sym, ap, false, ◌&&◌, not, none, some, List, [], ◌∷◌, leb, ◌==◌,
  str_eq, if◌then◌else◌, arith, Bool-cases, Option-cases, inl, inr, subst,
}
use nodary.Audit.Record.{Record}
use nodary.Audit.Verify.{held}
use nodary.Audit.Mirror.{Comparison, add_behind, add_ahead, meet}

-- The records of a file that are past every record before them.
unfoldable pub rising : ℕ → List Record → List Record
rising last [] = []
rising last (r ∷ rs) =
    let further = rising last rs in
    let onward = r ∷ rising r.seq rs in if leb r.seq last then further else onward

-- How many of the first have a number that none of the second has.
unfoldable pub missing : List Record → List Record → ℕ
missing [] ys = 0
missing (x ∷ xs) ys = elim (held x.seq ys) [ none ↦ missing xs ys + 1 | some y ↦ missing xs ys ]

-- The first number, of those of the first list, at which the second has another hash, or 0.
unfoldable pub first_differing : List Record → List Record → ℕ
first_differing [] ys = 0
first_differing (x ∷ xs) ys = elim (held x.seq ys) [
  | none ↦ first_differing xs ys
  | some y ↦ if str_eq x.hash y.hash then first_differing xs ys else x.seq
]

-- The numbers ascend from past `n`.
abbrev pub Ascending : ℕ → List Record → Type 0
Ascending n [] = Unit
Ascending n (r ∷ rs) = (n < r.seq) × Ascending r.seq rs

pub rising-Ascending : (n : ℕ) (rs : List Record) → Ascending n (rising n rs)
unfolding rising
rising-Ascending n [] = tt
rising-Ascending n (r ∷ rs) = elim (Bool-cases (leb r.seq n)) [
  | inl e ↦
      subst (λ (z : List Record). Ascending n z) {x = rising n rs} {y = rising n (r ∷ rs)}
        (rw (rising, e)) (rising-Ascending n rs)
  | inr e ↦
      subst (λ (z : List Record). Ascending n z) {x = r ∷ rising r.seq rs} {y = rising n (r ∷ rs)}
        (rw (rising, e)) (ground (arith, e), rising-Ascending r.seq rs)
]

pub Ascending-widen : (m n : ℕ) (rs : List Record) → m ≤ n → Ascending n rs → Ascending m rs
Ascending-widen m n [] h a = tt
Ascending-widen m n (r ∷ rs) h a = (omega (arith, h, a.0), a.1)

pub held-Ascending : (m n : ℕ) (rs : List Record) → m ≤ n → Ascending n rs → held m rs ≡ none
unfolding held
held-Ascending m n [] h a = refl
held-Ascending m n (r ∷ rs) h a =
    let past = a.0 in
    ground (arith, h, past, held-Ascending m r.seq rs (omega (arith, h, past)) a.1)

pub held_past : (x : Record) (m : ℕ) (ys : List Record) → x.seq < m → held m (x ∷ ys) ≡ held m ys
unfolding held
held_past x m ys h = ground (arith, h)

-- A record below all of a list plays no part in what is counted of that list.
pub missing_past :
    (x : Record) (n : ℕ) (xs ys : List Record)
    → x.seq ≤ n
    → Ascending n xs
    → missing xs (x ∷ ys) ≡ missing xs ys
unfolding missing
missing_past x n [] ys h a = refl
missing_past x n (z ∷ xs) ys h a =
    let skip = held_past x z.seq ys (omega (arith, h, a.0)) in
    let rest = missing_past x z.seq xs ys (omega (arith, h, a.0)) a.1 in
    elim (Option-cases (held z.seq ys)) [
      | inl e ↦ rw (missing, skip, e, rest)
      | inr (y, e) ↦ rw (missing, skip, e, rest)
    ]

pub first_differing_past :
    (x : Record) (n : ℕ) (xs ys : List Record)
    → x.seq ≤ n
    → Ascending n xs
    → first_differing xs (x ∷ ys) ≡ first_differing xs ys
unfolding first_differing
first_differing_past x n [] ys h a = refl
first_differing_past x n (z ∷ xs) ys h a =
    let skip = held_past x z.seq ys (omega (arith, h, a.0)) in
    let rest = first_differing_past x z.seq xs ys (omega (arith, h, a.0)) a.1 in
    elim (Option-cases (held z.seq ys)) [
      | inl e ↦ rw (first_differing, skip, e, rest)
      | inr (y, e) ↦ rw (first_differing, skip, e, rest)
    ]

-- What is counted in all, from a comparison so far.
abbrev pub total : List Record → List Record → Comparison → Comparison
total rows file c = record c {
  diverged = if c.diverged == 0 then first_differing rows file else c.diverged;
  behind = c.behind + missing rows file;
  ahead = c.ahead + missing file rows;
}

pub counts_same :
    (c d : Comparison)
    → c.installs ≡ d.installs
    → c.diverged ≡ d.diverged
    → c.behind ≡ d.behind
    → c.ahead ≡ d.ahead
    → c ≡ d
counts_same c d p q r s = cc (p, q, r, s)

or_first : Comparison → ℕ → ℕ
or_first c n = if c.diverged == 0 then n else c.diverged

pub total_done : (c : Comparison) → c ≡ total [] [] c
unfolding missing first_differing
total_done c = counts_same c (total [] [] c) refl (ground arith) (omega arith) (omega arith)

pub total_behind :
    (row : Record) (rows file : List Record) (c : Comparison)
    → Ascending row.seq file
    → total rows file (add_behind c) ≡ total (row ∷ rows) file c
unfolding missing first_differing or_first
total_behind row rows file c up =
    let h = held-Ascending row.seq row.seq file (omega arith) up in
    let m = missing_past row row.seq file rows (omega arith) up in
    let more : missing (row ∷ rows) file ≡ missing rows file + 1 = rw (missing, h) in
    let same : first_differing (row ∷ rows) file ≡ first_differing rows file =
      rw (first_differing, h) in
    counts_same (total rows file (add_behind c)) (total (row ∷ rows) file c) refl
      (ap (λ n. or_first c n) (sym same)) (omega (arith, more)) (omega (arith, m))

pub total_ahead :
    (r : Record) (rows file : List Record) (c : Comparison)
    → Ascending r.seq rows
    → total rows file (add_ahead c) ≡ total rows (r ∷ file) c
unfolding missing or_first
total_ahead r rows file c up =
    let h = held-Ascending r.seq r.seq rows (omega arith) up in
    let m = missing_past r r.seq rows file (omega arith) up in
    let d = first_differing_past r r.seq rows file (omega arith) up in
    let more : missing (r ∷ file) rows ≡ missing file rows + 1 = rw (missing, h) in
    counts_same (total rows file (add_ahead c)) (total rows (r ∷ file) c) refl
      (ap (λ n. or_first c n) (sym d)) (omega (arith, m)) (omega (arith, more))

held_here : (x : Record) (n : ℕ) (ys : List Record) → x.seq ≡ n → held n (x ∷ ys) ≡ some x
unfolding held
held_here x n ys e = ground (arith, e)

meet_kept :
    (row r : Record) (c : Comparison)
    → ((meet row r c).installs ≡ c.installs)
      × ((meet row r c).behind ≡ c.behind)
      × ((meet row r c).ahead ≡ c.ahead)
unfolding meet
meet_kept row r c = elim (Bool-cases (not (str_eq row.hash r.hash) && (c.diverged == 0))) [
  | inl e ↦ (rw (meet, e), rw (meet, e), rw (meet, e))
  | inr e ↦ (rw (meet, e), rw (meet, e), rw (meet, e))
]

meet_first :
    (row r : Record) (rows file : List Record) (c : Comparison)
    → 0 < row.seq
    → held row.seq (r ∷ file) ≡ some r
    → first_differing rows (r ∷ file) ≡ first_differing rows file
    → or_first (meet row r c) (first_differing rows file)
      ≡ or_first c (first_differing (row ∷ rows) (r ∷ file))
unfolding meet first_differing or_first
meet_first row r rows file c pos h d = elim (Bool-cases (str_eq row.hash r.hash)) [
  | inl e ↦ rw (meet, or_first, first_differing, h, e, d)
  | inr e ↦ elim (Bool-cases (c.diverged == 0)) [
    | inl z ↦
        let some_row : (row.seq == 0) ≡ false = ground (arith, pos) in
        rw (meet, or_first, first_differing, h, e, z, some_row)
    | inr z ↦ rw (meet, or_first, first_differing, h, e, z, z)
  ]
]

pub total-meet :
    (row r : Record) (rows file : List Record) (c : Comparison)
    → 0 < row.seq
    → row.seq ≡ r.seq
    → Ascending row.seq rows
    → Ascending r.seq file
    → total rows file (meet row r c) ≡ total (row ∷ rows) (r ∷ file) c
unfolding missing or_first
total-meet row r rows file c pos e up_rows up_file =
    let up = subst (λ (n : ℕ). Ascending n rows) {x = row.seq} {y = r.seq} e up_rows in
    let down = subst (λ (n : ℕ). Ascending n file) {x = r.seq} {y = row.seq} (sym e) up_file in
    let here = held_here r row.seq file (sym e) in
    let there = held_here row r.seq rows e in
    let few : missing (row ∷ rows) (r ∷ file) ≡ missing rows file =
      rw (missing, here) (missing_past r r.seq rows file (omega arith) up) in
    let less : missing (r ∷ file) (row ∷ rows) ≡ missing file rows =
      rw (missing, there) (missing_past row row.seq file rows (omega arith) down) in
    let rest = first_differing_past r r.seq rows file (omega arith) up in
    let (installs, behind, ahead) = meet_kept row r c in
    counts_same (total rows file (meet row r c)) (total (row ∷ rows) (r ∷ file) c) installs
      (meet_first row r rows file c pos here rest) (omega (arith, few, behind))
      (omega (arith, less, ahead))
