-- ===== src/Audit/Database/Sound.antt =====
-- `AppendTx` of internal/audit/chain.go and `VerifyDB` of internal/audit/verify.go on a database
-- that the code wrote.
use nodary.Prelude.{
  ℕ, suc, ◌+◌, ◌<◌, String, ◌≡◌, ◌≢◌, ◌⊎◌, inl, inr, refl, sym, ◌∙◌, ap, Option, none, some, List,
  [], ◌∷◌, ◌++◌, arith, length, subst, Option-cases, eq_iff, map,
}
use nodary.Audit.Record.{Record, Entry, validate, compute, genesis_prev_hash}
use nodary.Audit.Verify.{Anchor, Result, join, readable, verify}
use nodary.Audit.Verify.Spec.{Links}
use nodary.Audit.Verify.Complete.{verify-InOrder}
use nodary.Audit.Database.{
  Installation, Database, tail, install_row, insert_row, insert_ordered, appended, next_record,
  with_hash, verdict, prune_anchor, db_opts, check_empty, append_tx, verify_db, empty_database,
}

-- Where the chain of a database begins: after genesis, or where retention cut it.
abbrev pub start : Option Anchor → ℕ × String
start none = (0, genesis_prev_hash)
start (some a) = (a.seq, a.hash)

-- The number and the hash that the next record follows.
abbrev pub last_of : ℕ → String → List Record → ℕ × String
last_of n h [] = (n, h)
last_of n h (r ∷ rs) = last_of r.seq r.hash rs

tail-last_of :
    (n : ℕ) (h : String) (r : Record) (rs : List Record) → tail (r ∷ rs) ≡ last_of n h (r ∷ rs)
unfolding tail
tail-last_of n h r [] = refl
tail-last_of n h r (s ∷ rs) = tail-last_of r.seq r.hash s rs

module _ (digest : Record → Option String) where
  Links-snoc :
      (i : String) (n : ℕ) (h : String) (rows : List Record) (r : Record)
      → Links (compute digest) i n h rows
      → r.install ≡ i
      → r.seq ≡ suc (last_of n h rows).0
      → r.prev_hash ≡ (last_of n h rows).1
      → compute digest r ≡ some r.hash
      → Links (compute digest) i n h (rows ++ r ∷ [])
  Links-snoc i n h [] r l a b c d = (a, b, c, d, tt)
  Links-snoc i n h (x ∷ rows) r l a b c d =
      (l.0, l.1, l.2, l.3, Links-snoc i x.seq x.hash rows r l.4 a b c d)

  last_of-ge :
      (i : String) (n : ℕ) (h : String) (rows : List Record)
      → Links (compute digest) i n h rows
      → (last_of n h rows).0 ≡ n + length rows
  last_of-ge i n h [] l = omega arith
  last_of-ge i n h (x ∷ rows) l = omega (arith, last_of-ge i x.seq x.hash rows l.4, l.1)

  insert_ordered-last :
      (i : String) (n : ℕ) (h : String) (rows : List Record) (r : Record)
      → Links (compute digest) i n h rows
      → (last_of n h rows).0 < r.seq
      → insert_ordered r rows ≡ rows ++ r ∷ []
  unfolding insert_ordered
  insert_ordered-last i n h [] r l lt = refl
  insert_ordered-last i n h (x ∷ rows) r l lt =
      ground
        (arith, insert_ordered-last i x.seq x.hash rows r l.4, last_of-ge i x.seq x.hash rows l.4)

  -- The invariant: an installation row, and after the point where the chain was last cut the records
  -- of that installation, one following the other, at least one.
  pub record IsSound (db : Database) : Type 0 where
    pub row : Installation
    pub installed : db.installation ≡ some row
    pub anchor : Option Anchor
    pub anchored : prune_anchor (some row) ≡ some anchor
    pub links : Links (compute digest) row.id (start anchor).0 (start anchor).1 db.audit
    pub kept : db.audit ≢ []

  compute-with_hash : (r : Record) (h : String) → compute digest (with_hash r h) ≡ compute digest r
  unfolding compute
  compute-with_hash r h = refl

  -- What a successful append built.
  append_inversion :
      (minted : String) (db db' : Database) (e : Entry) (r : Record)
      → append_tx digest minted db e ≡ appended db' r
      → (h : String) × (r
          ≡ with_hash (next_record (install_row minted e.ts db.installation) db.audit e) h)
        × (compute digest r ≡ some h)
        × (insert_row r db.audit ≡ some db'.audit)
        × (db'.installation ≡ some (install_row minted e.ts db.installation))
  unfolding append_tx
  append_inversion minted db db' e r a =
      let i = install_row minted e.ts db.installation in
      let x = next_record i db.audit e in
      elim (Option-cases (validate x)) [
        | inr (f, v) ↦ absurd (ground (arith, v))
        | inl v ↦ elim (Option-cases (compute digest x)) [
          | inl c ↦ absurd (ground (arith, v, c))
          | inr (h, c) ↦ elim (Option-cases (insert_row (with_hash x h) db.audit)) [
            | inl s ↦ absurd (ground (arith, v, c, s))
            | inr (rows, s) ↦
                let same : appended (record { audit = rows; installation = some i }) (with_hash x h)
                    ≡ appended db' r =
                  ground (arith, v, c, s) in
                let same_row : with_hash x h ≡ r = cc same in
                (
                  h,
                  sym same_row,
                  ap (compute digest) (sym same_row) ∙ (compute-with_hash x h ∙ c),
                  ap (λ (y : Record). insert_row y db.audit) (sym same_row) ∙ (s ∙ cc same),
                  cc same,
                )
          ]
        ]
      ]

  -- The number of a record is one more than the last before it.
  pub append_tx-seq :
      (minted : String) (db db' : Database) (e : Entry) (r : Record)
      → append_tx digest minted db e ≡ appended db' r
      → r.seq ≡ (tail db.audit).0 + 1
  unfolding next_record
  append_tx-seq minted db db' e r a =
      let (h, is, _, _, _) = append_inversion minted db db' e r a in ap (λ (x : Record). x.seq) is

  -- The database before the first record, or one with a chain.
  abbrev pub IsGenuine : Database → Type 0
  IsGenuine db = (db ≡ empty_database) ⊎ IsSound db

  insert_row-last :
      (i : String) (n : ℕ) (h : String) (rows rows' : List Record) (r : Record)
      → Links (compute digest) i n h rows
      → (last_of n h rows).0 < r.seq
      → insert_row r rows ≡ some rows'
      → rows' ≡ rows ++ r ∷ []
  unfolding insert_row
  insert_row-last i n h rows rows' r l lt s = ground (arith, insert_ordered-last i n h rows r l lt)

  append-nonempty : (rows : List Record) (r : Record) → rows ++ r ∷ [] ≢ []
  append-nonempty [] r e = cc
  append-nonempty (x ∷ rows) r e = cc

  tail_kept : (n : ℕ) (h : String) (rows : List Record) → rows ≢ [] → tail rows ≡ last_of n h rows
  tail_kept n h [] k = absurd (k refl)
  tail_kept n h (r ∷ rows) k = tail-last_of n h r rows

  -- The new record continues whatever chain there was.
  module _ (minted : String) (db db' : Database) (e : Entry) (r : Record)
      (a : append_tx digest minted db e ≡ appended db' r) where
    appended_to :
        (row : Installation) (anchor : Option Anchor)
        → install_row minted e.ts db.installation ≡ row
        → prune_anchor (some row) ≡ some anchor
        → Links (compute digest) row.id (start anchor).0 (start anchor).1 db.audit
        → tail db.audit ≡ last_of (start anchor).0 (start anchor).1 db.audit
        → IsSound db' × (db'.audit ≡ db.audit ++ r ∷ [])
    unfolding next_record
    appended_to row anchor i p l t =
        let (h, is, c, s, inst) = append_inversion minted db db' e r a in
        let n = (start anchor).0 in
        let g = (start anchor).1 in
        let seq : r.seq ≡ suc (last_of n g db.audit).0 =
          omega (arith, ap (λ (x : Record). x.seq) is, ap (λ (x : ℕ × String). x.0) t) in
        let end = insert_row-last row.id n g db.audit db'.audit r l (omega (arith, seq)) s in
        (
          record {
            row = row;
            installed = inst ∙ ap some i;
            anchor = anchor;
            anchored = p;
            links =
                subst (λ (rows : List Record). Links (compute digest) row.id n g rows) (sym end)
                  (Links-snoc row.id n g db.audit r l (cc (is, i)) seq
                    (ap (λ (x : Record). x.prev_hash) is ∙ ap (λ (x : ℕ × String). x.1) t)
                    (c ∙ cc is));
            kept = λ z. append-nonempty db.audit r (sym end ∙ z);
          },
          end,
        )

    -- An append to a genuine database leaves it sound, and adds its record at the end of the chain.
    pub append-IsSound : IsGenuine db → IsSound db' × (db'.audit ≡ db.audit ++ r ∷ [])
    append-IsSound (inl fresh) =
        appended_to (install_row minted e.ts none) none
          (ap (λ (d : Database). install_row minted e.ts d.installation) fresh)
          (unfold install_row prune_anchor in refl) (rw fresh tt) (rw fresh (unfold tail in refl))
    append-IsSound (inr g) =
        appended_to g.row g.anchor (rw g.installed (unfold install_row in refl)) g.anchored g.links
          (tail_kept _ _ db.audit g.kept)

  join-Links :
      (i : String) (anchor : Option Anchor) (r : Record) (rs : List Record)
      → Links (compute digest) i (start anchor).0 (start anchor).1 (r ∷ rs)
      → (join (db_opts anchor) r).problem ≡ none
  unfolding join db_opts
  join-Links i none r rs l = ground (arith, eq_iff r.prev_hash genesis_prev_hash)
  join-Links i (some a) r rs l = ground (arith, eq_iff r.prev_hash a.hash)

  check_empty-kept :
      (i : Option Installation) (res : Result)
      → res.problem ≡ none
      → 0 < res.records
      → check_empty i res ≡ res
  unfolding check_empty
  check_empty-kept i res g r = ground arith

  verify_db_step :
      (db : Database) (anchor : Option Anchor) (out : Result)
      → prune_anchor db.installation ≡ some anchor
      → verify (compute digest) (map readable db.audit) (db_opts anchor) ≡ some out
      → verify_db digest db ≡ some (verdict (check_empty db.installation out))
  unfolding verify_db
  verify_db_step db anchor out p v = rw (verify_db, p, v)

  -- Verifying a sound database finds no break, and counts every record of it.
  pub verify_db-IsSound :
      (db : Database)
      → IsSound db
      → (out : Result) × (verify_db digest db ≡ some (verdict out))
        × (out.problem ≡ none)
        × (out.records ≡ length db.audit)
  verify_db-IsSound db s = go db.audit refl s.links
    where
      go :
          (rows : List Record)
          → db.audit ≡ rows
          → Links (compute digest) s.row.id (start s.anchor).0 (start s.anchor).1 rows
          → (out : Result) × (verify_db digest db ≡ some (verdict out))
            × (out.problem ≡ none)
            × (out.records ≡ length db.audit)
      go [] e l = absurd (s.kept e)
      go (r ∷ rs) e l =
          let (n, h) = start s.anchor in
          let (out, run, good, records, _, _, _, _, _) =
            verify-InOrder (compute digest) s.row.id n h r rs (db_opts s.anchor) l
              (join-Links s.row.id s.anchor r rs l) in
          (
            out,
            verify_db_step db s.anchor out
                  (ap (λ (x : Option Installation). prune_anchor x) s.installed ∙ s.anchored)
                  (ap
                      (λ (x : List Record).
                        verify (compute digest) (map readable x) (db_opts s.anchor))
                      e
                    ∙ run)
                ∙ ap (λ (x : Result). some (verdict x))
                    (check_empty-kept db.installation out good (omega (arith, records))),
            good,
            rw e records,
          )
