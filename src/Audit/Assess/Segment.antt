-- ===== src/Audit/Assess/Segment.antt =====
-- `nodary audit verify` of internal/cli/audit.go on a sound database and a mirror of it: any run of its
-- records, such as a rotated file or an export.
use nodary.Prelude.{
  All-map, ℕ, suc, ◌+◌, ◌-◌, ◌<◌, ◌≡◌, refl, sym, ap, ◌∙◌, String, true, false, Option, none, some,
  List, [], ◌∷◌, ◌++◌, ltb, length, str_eq, arith, All, map, Bool-cases, eq_iff, ◌⊎◌, inl, inr,
  subst,
}
use mathlib.Core.List.{append_assoc}
use nodary.Audit.Record.{Record, compute, genesis_prev_hash}
use nodary.Audit.Verify.{Item, readable, held, Anchor, Result, VerifyOpts, join}
use nodary.Audit.Verify.Spec.{Links}
use nodary.Audit.Verify.Complete.{verify-InOrder}
use nodary.Audit.Database.{Database}
use nodary.Audit.Database.Sound.{IsSound, last_of, start, verify_db-IsSound}
use nodary.Audit.Mirror.{
  Comparison, compared, compare_rows, hash_at, verify_file, anchor_fragment, verify_mirror,
  Assessment, is_ok, is_sound, agrees,
}
use nodary.Audit.Mirror.Counts.{
  missing, first_differing, counts_same, Ascending, Ascending-widen, held-Ascending, held_past,
}
use nodary.Audit.Mirror.Ordered.{held_end, Ascending-append}
use nodary.Audit.Mirror.Pairs.{InRows, agrees_iff}
use nodary.Audit.Mirror.Runs.{
  missing-append, missing_all, missing_own, held_before, held_after, held_segment, held_own,
}
use nodary.Audit.Mirror.Merge.{AllOf, compare_rows-counts}
use nodary.Audit.Assess.{with_chain, assessed, assess, relate, assess_mirror, read_mirror}

-- What `VerifyFile` expects of a file with no anchor.
abbrev file_opts : VerifyOpts
file_opts = record { require_genesis = false; anchor = none }

abbrev pub mirror_records : Assessment → Option ℕ
mirror_records a = elim a.mirror [ none ↦ none | some res ↦ some res.records ]

sound_result : (res : Result) → res.problem ≡ none → is_sound (some res) ≡ true
sound_result res e = ground (arith, e)

relate_next :
    (chain : Option Result) (db : Database) (res : Result) (items : List Item) (c : Comparison)
    → res.problem ≡ none
    → compare_rows db.audit items ≡ some (compared c)
    → relate chain (some db) res items ≡ with_chain chain (some res) (some c)
unfolding relate
relate_next chain db res items c e k = rw (relate, sound_result res e, k)

module _ (digest : Record → Option String) where
  Links-split :
      (i : String) (n : ℕ) (h : String) (xs ys : List Record)
      → Links (compute digest) i n h (xs ++ ys)
      → Links (compute digest) i n h xs
        × Links (compute digest) i (last_of n h xs).0 (last_of n h xs).1 ys
  Links-split i n h [] ys l = (tt, l)
  Links-split i n h (x ∷ xs) ys l =
      let (front, back) = Links-split i x.seq x.hash xs ys l.4 in
      ((l.0, l.1, l.2, l.3, front), back)

  Links-Ascending :
      (i : String) (n : ℕ) (h : String) (xs : List Record)
      → Links (compute digest) i n h xs
      → Ascending n xs × AllOf i xs
  Links-Ascending i n h [] l = (tt, tt)
  Links-Ascending i n h (x ∷ xs) l =
      let (up, own) = Links-Ascending i x.seq x.hash xs l.4 in
      ((omega (arith, l.1), up), (l.0, own))

  -- The row before a run is not there, or it has the hash that the run follows.
  held_row_before :
      (i : String) (n : ℕ) (h : String) (before : List Record) (r : Record) (rest : List Record)
      → Links (compute digest) i n h (before ++ r ∷ rest)
      → (held (r.seq - 1) (before ++ r ∷ rest) ≡ none)
        ⊎ ((y : Record) × (held (r.seq - 1) (before ++ r ∷ rest) ≡ some y) × (y.hash ≡ r.prev_hash))
  unfolding held
  held_row_before i n h [] r rest l =
      let up = (Links-Ascending i n h (r ∷ rest) l).0 in
      inl (held-Ascending (r.seq - 1) n (r ∷ rest) (omega (arith, l.1)) up)
  held_row_before i n h (x ∷ []) r rest l =
      let next : r.seq ≡ suc x.seq = l.4.1 in inr (x, ground (arith, next), sym l.4.2)
  held_row_before i n h (x ∷ y ∷ before) r rest l =
      let further = held_row_before i x.seq x.hash (y ∷ before) r rest l.4 in
      let up = (Links-Ascending i y.seq y.hash (before ++ r ∷ rest) l.4.4).0 in
      let above = (held_end y.seq before rest r up).1 in
      let skip = held_past x (r.seq - 1) (y ∷ (before ++ r ∷ rest)) (omega (arith, above, l.4.1)) in
      elim further [ inl e ↦ inl (skip ∙ e) | inr (z, e, q) ↦ inr (z, skip ∙ e, q) ]

  -- The comparison of a run with all the rows.
  compare_rows-segment :
      (i : String) (n : ℕ) (h : String) (before fs rest : List Record)
      → Links (compute digest) i n h (before ++ (fs ++ rest))
      → compare_rows (before ++ (fs ++ rest)) (map readable fs)
        ≡ some (
            compared (record {
              installs = none;
              diverged = 0;
              behind = length before + length rest;
              ahead = 0;
            }))
  compare_rows-segment i n h before fs rest l =
      let rows : List Record = before ++ (fs ++ rest) in
      let (up, own) = Links-Ascending i n h rows l in
      let (front, back) = Links-split i n h before (fs ++ rest) l in
      let (m, g) = last_of n h before in
      let (links, _) = Links-split i m g fs rest back in
      let (up_back, _) = Links-Ascending i m g (fs ++ rest) back in
      let (up_file, own_file) = Links-Ascending i m g fs links in
      let up_rows = Ascending-widen 0 n rows (omega arith) up in
      let up_fs = Ascending-widen 0 m fs (omega arith) up_file in
      let counts = compare_rows-counts i rows fs own own_file up_rows up_fs in
      let found : Comparison = record {
        installs = none;
        diverged = first_differing rows fs;
        behind = missing rows fs;
        ahead = missing fs rows;
      } in
      let present : All (InRows rows) fs =
        All-map fs (λ r e. (r, e, refl)) (held_segment n before fs rest up) in
      let agreed : agrees (some found) ≡ true =
        (agrees_iff i rows fs found own own_file up_rows up_fs counts).1 present in
      let diverged : first_differing rows fs ≡ 0 = ground (arith, agreed) in
      let ahead : missing fs rows ≡ 0 = ground (arith, agreed) in
      let joined =
        subst (λ (z : List Record). Ascending n z) {x = rows} {y = (before ++ fs) ++ rest}
          (sym (append_assoc before fs rest)) up in
      let missed : missing rows fs ≡ length before + length rest = omega (
        arith,
        missing-append before (fs ++ rest) fs,
        missing-append fs rest fs,
        missing_all before fs
            (held_before n before fs (Ascending-append n (before ++ fs) rest joined)),
        missing_own fs fs (held_own m fs up_file),
        missing_all rest fs (held_after m fs rest up_back),
      ) in
      counts
      ∙ ap (λ (z : Comparison). some (compared z))
          (counts_same found
            (record {
              installs = none;
              diverged = 0;
              behind = length before + length rest;
              ahead = 0;
            })
            refl diverged missed ahead)

  hash_at-held :
      (rows : List Record) (r : Record)
      → (held (r.seq - 1) rows ≡ none)
        ⊎ ((y : Record) × (held (r.seq - 1) rows ≡ some y) × (y.hash ≡ r.prev_hash))
      → (hash_at rows (r.seq - 1) ≡ none) ⊎ (hash_at rows (r.seq - 1) ≡ some r.prev_hash)
  unfolding hash_at
  hash_at-held rows r k = elim (Bool-cases (ltb (r.seq - 1) 1)) [
    | inl e ↦ inl (rw (hash_at, e))
    | inr e ↦ elim k [
      | inl q ↦ inl (rw (hash_at, e, q))
      | inr (y, q, z) ↦ inr (rw (hash_at, e, q) (ap some z))
    ]
  ]

  -- A fragment that no row contradicts stays without a break.
  anchor_fragment-kept :
      (rows : List Record) (out : Result)
      → out.problem ≡ none
      → (hash_at rows (out.first_seq - 1) ≡ none)
        ⊎ (hash_at rows (out.first_seq - 1) ≡ some out.first_prev_hash)
      → ((anchor_fragment rows out).problem ≡ none)
        × ((anchor_fragment rows out).records ≡ out.records)
  unfolding anchor_fragment
  anchor_fragment-kept rows out good k = elim (Bool-cases out.fragment) [
    | inr e ↦ (rw (anchor_fragment, good, e) good, rw (anchor_fragment, good, e))
    | inl e ↦ elim k [
      | inl q ↦ (rw (anchor_fragment, good, e, q) good, rw (anchor_fragment, good, e, q))
      | inr q ↦
          let own : str_eq out.first_prev_hash out.first_prev_hash ≡ true =
            ground (arith, eq_iff out.first_prev_hash out.first_prev_hash) in
          (rw (anchor_fragment, good, e, q, own) good, rw (anchor_fragment, good, e, q, own))
    ]
  ]

  -- `VerifyMirror` on a run of the rows: no break.
  verify_mirror-segment :
      (i : String) (n : ℕ) (h : String) (before : List Record) (r : Record) (rs rest : List Record)
      → Links (compute digest) i n h (before ++ r ∷ (rs ++ rest))
      → (join file_opts r).problem ≡ none
      → (out : Result) × (verify_mirror
            (compute digest)
            (some (before ++ r ∷ (rs ++ rest)))
            (map readable (r ∷ rs))
          ≡ some out)
        × (out.problem ≡ none)
        × (out.records ≡ length (r ∷ rs))
  unfolding verify_mirror verify_file anchor_fragment
  verify_mirror-segment i n h before r rs rest l j =
      let (front, back) = Links-split i n h before (r ∷ (rs ++ rest)) l in
      let (m, g) = last_of n h before in
      let (links, _) = Links-split i m g (r ∷ rs) rest back in
      let (out, run, good, records, first, _, _, fragment, prev) =
        verify-InOrder (compute digest) i m g r rs file_opts links j in
      let rows : List Record = before ++ r ∷ (rs ++ rest) in
      let known = hash_at-held rows r (held_row_before i n h before r (rs ++ rest) l) in
      let (unbroken, kept) = anchor_fragment-kept rows out good (
        subst
          (λ (p : ℕ × String).
            (hash_at rows (p.0 - 1) ≡ none) ⊎ (hash_at rows (p.0 - 1) ≡ some p.1))
          {x = (r.seq, r.prev_hash)} {y = (out.first_seq, out.first_prev_hash)} (cc (first, prev))
          known) in
      (anchor_fragment rows out, rw (verify_mirror, verify_file, run), unbroken, kept ∙ records)

  join-file :
      (r : Record)
      → (1 < r.seq) ⊎ (r.prev_hash ≡ genesis_prev_hash)
      → (join file_opts r).problem ≡ none
  unfolding join
  join-file r (inl h) = ground (arith, h)
  join-file r (inr h) =
      let same : str_eq r.prev_hash genesis_prev_hash ≡ true =
        ground (arith, h, eq_iff r.prev_hash genesis_prev_hash) in
      ground (arith, same)

  begins :
      (i : String) (anchor : Option Anchor) (before : List Record) (r : Record) (rest : List Record)
      → Links (compute digest) i (start anchor).0 (start anchor).1 (before ++ r ∷ rest)
      → (anchor ≡ none) ⊎ (1 < r.seq)
      → (1 < r.seq) ⊎ (r.prev_hash ≡ genesis_prev_hash)
  begins i anchor before r rest l (inr h) = inl h
  begins i anchor [] r rest l (inl e) = inr (l.2 ∙ ap (λ (a : Option Anchor). (start a).1) e)
  begins i anchor (x ∷ before) r rest l (inl e) =
      let up = (Links-Ascending i x.seq x.hash (before ++ r ∷ rest) l.4).0 in
      inl (omega (arith, (held_end x.seq before rest r up).1, l.1))

  -- Where a database is sound, and a mirror holds a run of its rows in order, at least one, that begins
  -- past number 1 or the database was never cut: the assessment is OK, the mirror verifies in all its
  -- records, and the comparison counts as behind the rows before and after the run, and nothing else.
  pub assess-segment :
      (db : Database) (s : IsSound digest db) (before : List Record) (r : Record)
      (rs rest : List Record)
      → db.audit ≡ before ++ r ∷ (rs ++ rest)
      → (s.anchor ≡ none) ⊎ (1 < r.seq)
      → (a : Assessment) × (assess digest (some db) none (some (map readable (r ∷ rs)))
          ≡ some (assessed a))
        × (is_ok a ≡ true)
        × (mirror_records a ≡ some (length (r ∷ rs)))
        × (a.comparison
            ≡ some (record {
              installs = none;
              diverged = 0;
              behind = length before + length rest;
              ahead = 0;
            }))
  unfolding is_ok assess assess_mirror read_mirror relate
  assess-segment db s before r rs rest e b =
      let rows : List Record = before ++ r ∷ (rs ++ rest) in
      let l =
        subst
          (λ (z : List Record).
            Links (compute digest) s.row.id (start s.anchor).0 (start s.anchor).1 z)
          {x = db.audit} {y = rows} e s.links in
      let j = join-file r (begins s.row.id s.anchor before r (rs ++ rest) l b) in
      let (chain, run, sound, _) = verify_db-IsSound digest db s in
      let (mirror, read, good, records) =
        verify_mirror-segment s.row.id (start s.anchor).0 (start s.anchor).1 before r rs rest l j in
      let own : verify_mirror (compute digest) (some db.audit) (map readable (r ∷ rs))
          ≡ some mirror =
        rw e read in
      let counted : compare_rows db.audit (map readable (r ∷ rs)) ≡ _ = rw e (
        compare_rows-segment s.row.id (start s.anchor).0 (start s.anchor).1 before (r ∷ rs) rest
          l) in
      (
        record {
          chain = some chain;
          mirror = some mirror;
          comparison = some (record {
            installs = none;
            diverged = 0;
            behind = length before + length rest;
            ahead = 0;
          });
        },
        rw (assess, run, assess_mirror, read_mirror, own)
            (relate_next (some chain) db mirror (map readable (r ∷ rs)) _ good counted),
        rw (is_ok, sound_result chain sound, sound_result mirror good),
        ap some records,
        refl,
      )
