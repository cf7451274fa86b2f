-- ===== src/Audit/Mirror/Pairs.antt =====
-- When `Compare` and `Assessment.OK` of internal/audit/verify.go take a file and the rows for a pair.
use nodary.Prelude.{
  All-map, ℕ, ◌+◌, ◌≡◌, ◌↔◌, refl, sym, ap, ◌∙◌, String, true, false, none, some, List, [], ◌∷◌,
  ◌==◌, str_eq, arith, All, map, Bool-cases, Option-cases, eq_iff, ◌⊎◌, inl, inr, subst,
}
use nodary.Audit.Record.{Record}
use nodary.Audit.Verify.{readable, held}
use nodary.Audit.Mirror.{Comparison, agrees, compared, compare_rows}
use nodary.Audit.Mirror.Counts.{missing, first_differing, Ascending}
use nodary.Audit.Mirror.Runs.{held_own}
use nodary.Audit.Mirror.Merge.{AllOf, compare_rows-counts}

-- The rows hold the record's number with its hash.
abbrev pub InRows : List Record → Record → Type 0
InRows rows r = (row : Record) × (held r.seq rows ≡ some row) × (row.hash ≡ r.hash)

-- Where the rows hold numbers, they are those of the numbers' records.
held-seq : (n : ℕ) (rs : List Record) (r : Record) → held n rs ≡ some r → r.seq ≡ n
unfolding held
held-seq n [] r e = absurd (cc e)
held-seq n (x ∷ rs) r e = elim (Bool-cases (x.seq == n)) [
  | inl q ↦
      let same : x ≡ r = cc (rw (held, q) at e) in
      let found : x.seq ≡ n = ground (arith, q) in ap (λ (z : Record). z.seq) (sym same) ∙ found
  | inr q ↦ held-seq n rs r (rw (held, q) at e)
]

-- The list lacks the record's number or has it with the record's hash.
abbrev pub IsAgreed : List Record → Record → Type 0
IsAgreed ys x =
    (held x.seq ys ≡ none) ⊎ ((y : Record) × (held x.seq ys ≡ some y) × (x.hash ≡ y.hash))

first_differing-IsAgreed :
    (n : ℕ) (xs ys : List Record)
    → Ascending n xs
    → (first_differing xs ys ≡ 0) ↔ All (IsAgreed ys) xs
unfolding first_differing
first_differing-IsAgreed n [] ys a = ((λ e. tt), (λ h. refl))
first_differing-IsAgreed n (x ∷ xs) ys a =
    let rest = first_differing-IsAgreed x.seq xs ys a.1 in
    elim (Option-cases (held x.seq ys)) [
      | inl e ↦ (
        (λ z. (inl e, rest.0 (rw (first_differing, e) at z))),
        (λ h. rw (first_differing, e) (rest.1 h.1)),
      )
      | inr (y, e) ↦ elim (Bool-cases (str_eq x.hash y.hash)) [
        | inl q ↦ (
          (λ z. (
            inr (y, e, ground (arith, q, eq_iff x.hash y.hash)),
            rest.0 (rw (first_differing, e, q) at z),
          )),
          (λ h. rw (first_differing, e, q) (rest.1 h.1)),
        )
        | inr q ↦ (
          (λ z. absurd (positive (rw (first_differing, e, q) at z))),
          (λ h. absurd (differ y e q h.0)),
        )
      ]
    ]
  where
    positive : x.seq ≡ 0 → ⊥
    positive z = omega (arith, z, a.0)

    differ :
        (y : Record) → held x.seq ys ≡ some y → str_eq x.hash y.hash ≡ false → IsAgreed ys x → ⊥
    differ y e q (inl k) = cc (e, k)
    differ y e q (inr (w, k, m)) =
        let same : y ≡ w = cc (e, k) in
        let hashes : x.hash ≡ y.hash = m ∙ ap (λ (z : Record). z.hash) (sym same) in
        ground (arith, q, hashes, eq_iff x.hash y.hash)

held-All :
    (P : Record → Type 0) (n : ℕ) (rs : List Record) (r : Record)
    → All P rs
    → held n rs ≡ some r
    → P r
unfolding held
held-All P n [] r h e = absurd (cc e)
held-All P n (x ∷ rs) r h e = elim (Bool-cases (x.seq == n)) [
  | inl q ↦ subst P {x = x} {y = r} (cc (rw (held, q) at e)) h.0
  | inr q ↦ held-All P n rs r h.1 (rw (held, q) at e)
]

missing-held :
    (xs ys : List Record)
    → (missing xs ys ≡ 0) ↔ All (λ x. (y : Record) × (held x.seq ys ≡ some y)) xs
unfolding missing
missing-held [] ys = ((λ e. tt), (λ h. refl))
missing-held (x ∷ xs) ys =
    let rest = missing-held xs ys in
    elim (Option-cases (held x.seq ys)) [
      | inl e ↦ ((λ z. absurd (more (rw (missing, e) at z))), (λ h. absurd (neither e h.0)))
      | inr (y, e) ↦
          ((λ z. ((y, e), rest.0 (rw (missing, e) at z))), (λ h. rw (missing, e) (rest.1 h.1)))
    ]
  where
    more : missing xs ys + 1 ≡ 0 → ⊥
    more z = omega (arith, z)

    neither : held x.seq ys ≡ none → ((y : Record) × (held x.seq ys ≡ some y)) → ⊥
    neither e (y, k) = cc (e, k)

All-zip : (P Q : Record → Type 0) (xs : List Record) → All P xs → All Q xs → All (λ x. P x × Q x) xs
All-zip P Q [] g h = tt
All-zip P Q (x ∷ xs) g h = ((g.0, h.0), All-zip P Q xs g.1 h.1)

agreed-InRows :
    (rows fs : List Record) (r : Record)
    → All (IsAgreed fs) rows
    → held r.seq fs ≡ some r
    → ((y : Record) × (held r.seq rows ≡ some y))
    → InRows rows r
agreed-InRows rows fs r agreed own (y, k) =
    let number = held-seq r.seq rows y k in
    let there : held y.seq fs ≡ some r = ap (λ (n : ℕ). held n fs) number ∙ own in
    elim (held-All (IsAgreed fs) r.seq rows y agreed k) [
      | inl n ↦ absurd (cc (n, there))
      | inr (z, n, q) ↦
          let same : z ≡ r = cc (n, there) in (y, k, q ∙ ap (λ (x : Record). x.hash) same)
    ]

InRows-IsAgreed :
    (rows fs : List Record) (row : Record)
    → All (InRows rows) fs
    → held row.seq rows ≡ some row
    → IsAgreed fs row
InRows-IsAgreed rows fs row h own = elim (Option-cases (held row.seq fs)) [
  | inl e ↦ inl e
  | inr (r, e) ↦
      let (z, k, q) = held-All (InRows rows) row.seq fs r h e in
      let number = held-seq row.seq fs r e in
      let same : z ≡ row = cc (k, ap (λ (n : ℕ). held n rows) number, own) in
      inr (r, e, ap (λ (x : Record). x.hash) (sym same) ∙ q)
]

-- Where the rows and a file's records are of one installation and ascend in their numbers: the
-- comparison finds nothing against the pair, as `Assessment.OK` reads it, exactly when the rows hold
-- every record of the file, by its number and with its hash.
pub agrees_iff :
    (i : String) (rows fs : List Record) (c : Comparison)
    → AllOf i rows
    → AllOf i fs
    → Ascending 0 rows
    → Ascending 0 fs
    → compare_rows rows (map readable fs) ≡ some (compared c)
    → (agrees (some c) ≡ true) ↔ All (InRows rows) fs
agrees_iff i rows fs c own_rows own_file up_rows up_file e =
    let counts = sym e ∙ compare_rows-counts i rows fs own_rows own_file up_rows up_file in
    let same : c ≡ record {
      installs = none;
      diverged = first_differing rows fs;
      behind = missing rows fs;
      ahead = missing fs rows;
    } =
      cc counts in
    rw same (
      (λ h. there (ground (arith, h)) (ground (arith, h))),
      (λ h.
          let bk = back h in
          let d : first_differing rows fs ≡ 0 = bk.0 in
          let m : missing fs rows ≡ 0 = bk.1 in ground (arith, d, m)),
    )
  where
    there : first_differing rows fs ≡ 0 → missing fs rows ≡ 0 → All (InRows rows) fs
    there d m =
        let agreed = (first_differing-IsAgreed 0 rows fs up_rows).0 d in
        All-map fs (λ r (own, found). agreed-InRows rows fs r agreed own found)
          (All-zip (λ r. held r.seq fs ≡ some r) (λ r. (y : Record) × (held r.seq rows ≡ some y)) fs
            (held_own 0 fs up_file) ((missing-held fs rows).0 m))

    back : All (InRows rows) fs → (first_differing rows fs ≡ 0) × (missing fs rows ≡ 0)
    back h = (
      (first_differing-IsAgreed 0 rows fs up_rows).1
          (All-map rows (λ row own. InRows-IsAgreed rows fs row h own) (held_own 0 rows up_rows)),
      (missing-held fs rows).1 (All-map fs (λ r (row, k, q). (row, k)) h),
    )
