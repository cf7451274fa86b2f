-- ===== src/Audit/Mirror/Runs.antt =====
-- Runs of records with ascending numbers, by what numbers they hold.
use nodary.Prelude.{
  ℕ, ◌+◌, ◌≤◌, ◌≡◌, refl, sym, ◌∙◌, none, some, List, [], ◌∷◌, ◌++◌, length, arith, All,
  Option-cases, inl, inr, subst,
}
use mathlib.Core.List.{append-nil}
use nodary.Audit.Record.{Record}
use nodary.Audit.Verify.{held}
use nodary.Audit.Mirror.Counts.{missing, Ascending, Ascending-widen, held-Ascending, held_past}
use nodary.Audit.Mirror.Ordered.{Ascending-append}

pub missing-append :
    (xs ys zs : List Record) → missing (xs ++ ys) zs ≡ missing xs zs + missing ys zs
unfolding missing
missing-append [] ys zs = omega arith
missing-append (x ∷ xs) ys zs =
    let rest = missing-append xs ys zs in
    elim (Option-cases (held x.seq zs)) [
      | inl e ↦ rw (missing, e) (omega (arith, rest))
      | inr (y, e) ↦ rw (missing, e) rest
    ]

pub missing_all :
    (xs ys : List Record) → All (λ x. held x.seq ys ≡ none) xs → missing xs ys ≡ length xs
unfolding missing
missing_all [] ys h = refl
missing_all (x ∷ xs) ys h = rw (missing, h.0) (omega (arith, missing_all xs ys h.1))

pub missing_own : (xs ys : List Record) → All (λ x. held x.seq ys ≡ some x) xs → missing xs ys ≡ 0
unfolding missing
missing_own [] ys h = refl
missing_own (x ∷ xs) ys h = rw (missing, h.0) (missing_own xs ys h.1)

pub Ascending-second : (n : ℕ) (xs ys : List Record) → Ascending n (xs ++ ys) → Ascending n ys
Ascending-second n [] ys a = a
Ascending-second n (x ∷ xs) ys a =
    Ascending-widen n x.seq ys (omega (arith, a.0)) (Ascending-second x.seq xs ys a.1)

-- In ascending runs, what comes before or after holds none of the numbers.
pub held_before :
    (n : ℕ) (xs ys : List Record) → Ascending n (xs ++ ys) → All (λ x. held x.seq ys ≡ none) xs
held_before n [] ys a = tt
held_before n (x ∷ xs) ys a = (
  held-Ascending x.seq x.seq ys (omega arith) (Ascending-second x.seq xs ys a.1),
  held_before x.seq xs ys a.1,
)

held_longer :
    (x : Record) (m : ℕ) (xs ys : List Record)
    → x.seq ≤ m
    → Ascending m ys
    → All (λ y. held y.seq xs ≡ none) ys
    → All (λ y. held y.seq (x ∷ xs) ≡ none) ys
held_longer x m xs [] le a h = tt
held_longer x m xs (y ∷ ys) le a h = (
  held_past x y.seq xs (omega (arith, le, a.0)) ∙ h.0,
  held_longer x y.seq xs ys (omega (arith, le, a.0)) a.1 h.1,
)

pub held_after :
    (n : ℕ) (xs ys : List Record) → Ascending n (xs ++ ys) → All (λ y. held y.seq xs ≡ none) ys
unfolding held
held_after n [] ys a = nothing ys
  where
    nothing : (ys : List Record) → All (λ y. held y.seq [] ≡ none) ys
    nothing [] = tt
    nothing (y ∷ ys) = (refl, nothing ys)
held_after n (x ∷ xs) ys a =
    held_longer x x.seq xs ys (omega arith) (Ascending-second x.seq xs ys a.1)
      (held_after x.seq xs ys a.1)

held_own_longer :
    (x : Record) (m : ℕ) (zs ys : List Record)
    → x.seq ≤ m
    → Ascending m ys
    → All (λ y. held y.seq zs ≡ some y) ys
    → All (λ y. held y.seq (x ∷ zs) ≡ some y) ys
held_own_longer x m zs [] le a h = tt
held_own_longer x m zs (y ∷ ys) le a h = (
  held_past x y.seq zs (omega (arith, le, a.0)) ∙ h.0,
  held_own_longer x y.seq zs ys (omega (arith, le, a.0)) a.1 h.1,
)

pub held_segment :
    (n : ℕ) (xs ys zs : List Record)
    → Ascending n (xs ++ (ys ++ zs))
    → All (λ y. held y.seq (xs ++ (ys ++ zs)) ≡ some y) ys
unfolding held
held_segment n (x ∷ xs) ys zs a =
    held_own_longer x x.seq (xs ++ (ys ++ zs)) ys (omega arith)
      (Ascending-append x.seq ys zs (Ascending-second x.seq xs (ys ++ zs) a.1))
      (held_segment x.seq xs ys zs a.1)
held_segment n [] [] zs a = tt
held_segment n [] (y ∷ ys) zs a = (
  ground arith,
  held_own_longer y y.seq (ys ++ zs) ys (omega arith) (Ascending-append y.seq ys zs a.1)
      (held_segment y.seq [] ys zs a.1),
)

pub held_own : (n : ℕ) (rs : List Record) → Ascending n rs → All (λ r. held r.seq rs ≡ some r) rs
held_own n rs a =
    subst (λ (z : List Record). All (λ r. held r.seq z ≡ some r) rs) {x = rs ++ []} {y = rs}
      (append-nil rs)
      (held_segment n [] rs [] (
        subst (λ (z : List Record). Ascending n z) {x = rs} {y = rs ++ []} (sym (append-nil rs)) a))
