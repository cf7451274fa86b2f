-- ===== src/Audit/Database/Detect.antt =====
-- The verdicts of `VerifyDB` of internal/audit/verify.go on any database.
use nodary.Prelude.{
  String, ◌≡◌, ◌⊎◌, inl, inr, refl, ◌∙◌, ap, Option, Option-cases, none, some, List, [], ◌∷◌, map,
  arith, subst, Bool-cases, ◌==◌,
}
use nodary.Audit.Record.{Record, compute}
use nodary.Audit.Verify.{readable, Anchor, Result, Problem, verify}
use nodary.Audit.Verify.Spec.{Holds, Verified}
use nodary.Audit.Verify.Fuel.{verify_total}
use nodary.Audit.Verify.Sound.{verify-Verified}
use nodary.Audit.Database.{
  Installation, Database, verdict, prune_anchor, db_opts, check_empty, empty_is_genuine, verify_db,
}

module _ (digest : Record → Option String) where
  verify_db_inversion :
      (db : Database) (out : Result)
      → verify_db digest db ≡ some (verdict out)
      → (anchor : Option Anchor) × (res : Result) × (prune_anchor db.installation ≡ some anchor)
        × (verify (compute digest) (map readable db.audit) (db_opts anchor) ≡ some res)
        × (check_empty db.installation res ≡ out)
  unfolding verify_db
  verify_db_inversion db out h = elim (Option-cases (prune_anchor db.installation)) [
    | inl e ↦ absurd (ground (arith, e))
    | inr (anchor, e) ↦
        let (res, v) = verify_total (compute digest) (map readable db.audit) (db_opts anchor) in
        (anchor, res, e, v, ground (arith, e, v))
  ]

  map-readable_nil : (rows : List Record) → map readable rows ≡ [] → rows ≡ []
  map-readable_nil [] e = refl
  map-readable_nil (r ∷ rows) e = cc

  check_empty-clean :
      (i : Option Installation) (res out : Result)
      → check_empty i res ≡ out
      → out.problem ≡ none
      → (res ≡ out) × ((out.records ≡ 0 → i ≡ none))
  unfolding check_empty empty_is_genuine
  check_empty-clean i res out e h = elim (Option-cases res.problem) [
    | inr (p, q) ↦ absurd (cc (rw (check_empty, q) at e, q, h))
    | inl q ↦ elim (Bool-cases (res.records == 0)) [
      | inr k ↦
          let same : res ≡ out = rw (check_empty, q, k) at e in
          (same, λ z. absurd (ground (arith, k, z, ap (λ (x : Result). x.records) same)))
      | inl k ↦ elim (Option-cases i) [
        | inl n ↦ (rw (check_empty, q, k, n) at e, λ z. n)
        | inr (row, n) ↦
            absurd (cc (ap (λ (x : Result). x.problem) (rw (check_empty, q, k, n) at e), h))
      ]
    ]
  ]

  -- A verdict without a break over a database: neither a record nor an installation row is in it,
  -- and the verdict counts none; or the verdict is that of rows which are the records of one chain, begun
  -- at genesis or at the cut that retention recorded, and gives the first and the last number of the
  -- chain and how many records it has.
  pub verify_db-Verified :
      (db : Database) (out : Result)
      → verify_db digest db ≡ some (verdict out)
      → out.problem ≡ none
      → ((db.audit ≡ []) × (db.installation ≡ none) × (out.records ≡ 0))
        ⊎ ((anchor : Option Anchor) × (prune_anchor db.installation ≡ some anchor)
            × Verified (compute digest) (map readable db.audit) (db_opts anchor) out)
  verify_db-Verified db out h good =
      let (anchor, res, p, v, e) = verify_db_inversion db out h in
      let (same, genuine) = check_empty-clean db.installation res out e good in
      let clean : res.problem ≡ none = ap (λ (x : Result). x.problem) same ∙ good in
      elim (verify-Verified (compute digest) (map readable db.audit) (db_opts anchor) res v clean) [
        | inl (empty, none_read) ↦
            let zero_read : out.records ≡ 0 = cc (same, none_read) in
            inl (map-readable_nil db.audit empty, genuine zero_read, zero_read)
        | inr chain ↦ inr (
          anchor,
          p,
          subst
              (λ (x : Result). Verified (compute digest) (map readable db.audit) (db_opts anchor) x)
              same chain,
        )
      ]

  -- However a chain was emptied, the verdict over what is left is a break: the rows are gone and the
  -- installation row, which only the first record writes, is not.
  verify_db-emptied :
      (db : Database) (i : Installation) (out : Result)
      → db.audit ≡ []
      → db.installation ≡ some i
      → verify_db digest db ≡ some (verdict out)
      → (p : Problem) × (out.problem ≡ some p)
  verify_db-emptied db i out e inst h = elim (Option-cases out.problem) [
    | inr p ↦ p
    | inl good ↦ elim (verify_db-Verified db out h good) [
      | inl (_, none_installed, _) ↦ absurd (cc (inst, none_installed))
      | inr (anchor, p, chain) ↦
          absurd
            (subst (λ (rows : List Record). Holds (map readable rows) chain.first) e chain.taken.0)
    ]
  ]
