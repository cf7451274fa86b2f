-- ===== src/Retention/Sound.antt =====
-- `pruneAudit` of internal/retention/retention.go on a sound database.
pub mod Place
use nodary.Prelude.{
  ℕ, suc, ◌-◌, ◌≤◌, ◌<◌, String, ◌≡◌, ◌≢◌, inl, inr, refl, sym, ◌∙◌, ap, false, Option, none, some,
  List, [], ◌∷◌, ◌++◌, arith, All, Bool-cases, subst, Option-cases, leb, str_eq,
}
use nodary.Audit.Record.{Record, compute}
use nodary.Audit.Verify.{Anchor}
use nodary.Audit.Verify.Spec.{Links}
use nodary.Audit.Database.{Database, prune_anchor}
use nodary.Audit.Database.Sound.{start, last_of, IsSound}
use nodary.Retention.{
  first_young, last_seq, keep_from, min_below, hash_at, Prefix, nothing, range, unreadable_range,
  no_anchor_hash, read_range, audit_prefix, after, cut_at, prune_audit,
}
use nodary.Retention.Sound.Place.{Cut-keep_from}

some-eq : {a b : String} → ◌≡◌ {A = Option String} (some a) (some b) → a ≡ b
some-eq e = cc e

module _ (digest : Record → Option String) where
  pub Links-suffix :
      (i : String) (n : ℕ) (h : String) (front rows : List Record)
      → Links (compute digest) i n h (front ++ rows)
      → Links (compute digest) i (last_of n h front).0 (last_of n h front).1 rows
  Links-suffix i n h [] rows l = l
  Links-suffix i n h (r ∷ front) rows l = Links-suffix i r.seq r.hash front rows l.4

  after-all :
      (i : String) (n m : ℕ) (h : String) (rows : List Record)
      → m ≤ n
      → Links (compute digest) i n h rows
      → after m rows ≡ rows
  unfolding after
  after-all i n m h [] le l = refl
  after-all i n m h (r ∷ rows) le l = ground (arith, after-all i r.seq m r.hash rows, l.1, l.4)

  pub last_of-lt :
      (i : String) (n : ℕ) (h : String) (front rows : List Record)
      → Links (compute digest) i n h (front ++ rows)
      → n ≤ (last_of n h front).0
  last_of-lt i n h [] rows l = omega arith
  last_of-lt i n h (r ∷ front) rows l = omega (arith, last_of-lt i r.seq r.hash front rows l.4, l.1)

  -- Deleting up to the end of the front leaves the rest.
  pub after-front :
      (i : String) (n : ℕ) (h : String) (front rows : List Record)
      → Links (compute digest) i n h (front ++ rows)
      → after (last_of n h front).0 (front ++ rows) ≡ rows
  unfolding after
  after-front i n h [] rows l = after-all i n n h rows (omega arith) l
  after-front i n h (r ∷ front) rows l =
      ground
        (arith, after-front i r.seq r.hash front rows l.4, last_of-lt i r.seq r.hash front rows l.4)

  -- The hash at the cut is the last one of the front.
  hash_at-front :
      (i : String) (n : ℕ) (h : String) (r : Record) (front rows : List Record)
      → Links (compute digest) i n h (r ∷ front ++ rows)
      → hash_at (last_of r.seq r.hash front).0 (r ∷ front ++ rows)
        ≡ some (last_of r.seq r.hash front).1
  unfolding hash_at
  hash_at-front i n h r [] rows l = ground arith
  hash_at-front i n h r (s ∷ front) rows l = ground (
    arith,
    hash_at-front i r.seq r.hash s front rows l.4,
    last_of-lt i s.seq s.hash front rows l.4.4,
    l.4.1,
  )

  -- Nothing lies below the first record of a chain.
  min_below-first :
      (i : String) (n k : ℕ) (h : String) (rows : List Record)
      → k ≤ suc n
      → Links (compute digest) i n h rows
      → min_below k rows ≡ none
  unfolding min_below
  min_below-first i n k h [] le l = refl
  min_below-first i n k h (r ∷ rows) le l =
      ground (arith, min_below-first i r.seq k r.hash rows, l.1, l.4)

  -- What stands behind a range to remove.
  pub record Ranged (cutoff : ℕ) (rows : List Record) (from through : ℕ) (anchor : String)
      : Type 0 where
    pub k : ℕ
    pub kept_from : keep_from cutoff rows ≡ some k
    second : 1 < k
    below : min_below k rows ≡ some from
    hash : hash_at (k - 1) rows ≡ some anchor
    pub through_at : through ≡ k - 1

  read_range_inversion :
      (k : ℕ) (rows : List Record) (from through : ℕ) (anchor : String)
      → read_range k rows ≡ range from through anchor
      → (min_below k rows ≡ some from) × (hash_at (k - 1) rows ≡ some anchor) × (through ≡ k - 1)
  unfolding read_range
  read_range_inversion k rows from through anchor h = elim (Option-cases (min_below k rows)) [
    | inl e ↦ absurd (ground (arith, e))
    | inr (f, e) ↦ elim (Option-cases (hash_at (k - 1) rows)) [
      | inl e' ↦ absurd (ground (arith, e, e'))
      | inr (a, e') ↦ ground (arith, e, e')
    ]
  ]

  pub Ranged-range :
      (cutoff : ℕ) (rows : List Record) (from through : ℕ) (anchor : String)
      → audit_prefix cutoff rows ≡ range from through anchor
      → Ranged cutoff rows from through anchor
  unfolding audit_prefix
  Ranged-range cutoff rows from through anchor h = elim (Option-cases (keep_from cutoff rows)) [
    | inl e ↦ absurd (ground (arith, e))
    | inr (k, e) ↦
        let second : 1 < k = ground (arith, e) in
        let (below, hash, at) =
          read_range_inversion k rows from through anchor (ground (arith, e)) in
        record {
          k = k;
          kept_from = e;
          second = second;
          below = below;
          hash = hash;
          through_at = at;
        }
  ]

  -- The rows that are left, and the place where they were cut.
  record Pruned (cutoff : ℕ) (i : String) (n : ℕ) (h : String) (rows : List Record) (through : ℕ)
      (anchor : String) : Type 0 where
    removed : List Record
    split : rows ≡ removed ++ after through rows
    old : All (λ r. r.ts < cutoff) removed
    links : Links (compute digest) i through anchor (after through rows)
    kept : after through rows ≢ []

  Pruned-front :
      (cutoff : ℕ) (i : String) (n : ℕ) (h : String) (front : List Record) (first : Record)
      (kept rows : List Record)
      → rows ≡ front ++ first ∷ kept
      → All (λ r. r.ts < cutoff) front
      → Links (compute digest) i n h (front ++ first ∷ kept)
      → Pruned cutoff i n h rows (last_of n h front).0 (last_of n h front).1
  Pruned-front cutoff i n h front first kept rows split old l =
      let left : after (last_of n h front).0 rows ≡ first ∷ kept =
        ap (λ (t : List Record). after (last_of n h front).0 t) split
        ∙ after-front i n h front (first ∷ kept) l in
      record {
        removed = front;
        split = split ∙ ap (λ (t : List Record). front ++ t) (sym left);
        old = old;
        links = rw left (Links-suffix i n h front (first ∷ kept) l);
        kept = λ e. cc (e, left);
      }

  Pruned-split :
      (cutoff : ℕ) (i : String) (n : ℕ) (h : String) (rows front : List Record) (first : Record)
      (kept : List Record) (from through : ℕ) (anchor : String)
      → Links (compute digest) i n h rows
      → (g : Ranged cutoff rows from through anchor) → rows ≡ front ++ first ∷ kept
      → All (λ r. r.ts < cutoff) front
      → first.seq ≡ g.k
      → Pruned cutoff i n h rows through anchor
  Pruned-split cutoff i n h rows [] first kept from through anchor l g split old at =
      let l' : Links (compute digest) i n h (first ∷ kept) = rw split at l in
      absurd (cc (g.below, min_below-first i n g.k h rows (omega (arith, l'.1, at)) l))
  Pruned-split cutoff i n h rows (r ∷ front) first kept from through anchor l g split old at =
      let l' : Links (compute digest) i n h (r ∷ front ++ first ∷ kept) = rw split at l in
      let last = last_of r.seq r.hash front in
      let next = (Links-suffix i n h (r ∷ front) (first ∷ kept) l').1 in
      let through_last : through ≡ last.0 = omega (arith, g.through_at, next, at) in
      let anchor_last : anchor ≡ last.1 = some-eq (
        sym g.hash
        ∙ ap (λ (t : List Record). hash_at (g.k - 1) t) split
        ∙ ap (λ (m : ℕ). hash_at m (r ∷ front ++ first ∷ kept)) (sym g.through_at ∙ through_last)
        ∙ hash_at-front i n h r front (first ∷ kept) l') in
      rw (through_last, anchor_last)
        (Pruned-front cutoff i n h (r ∷ front) first kept rows split old l')

  Pruned-Cut :
      (cutoff : ℕ) (i : String) (n : ℕ) (h : String) (rows : List Record) (from through : ℕ)
      (anchor : String)
      → Links (compute digest) i n h rows
      → Ranged cutoff rows from through anchor
      → Pruned cutoff i n h rows through anchor
  Pruned-Cut cutoff i n h rows from through anchor l g =
      let c = Cut-keep_from cutoff g.k rows g.kept_from in
      Pruned-split cutoff i n h rows c.removed c.first c.kept from through anchor l g c.split c.old
        c.at_cut

  recut :
      (db : Database) (s : IsSound digest db) (through : ℕ) (anchor : String) (rows : List Record)
      → Links (compute digest) s.row.id through anchor rows
      → rows ≢ []
      → IsSound digest
          (record { audit = rows; installation = cut_at through anchor db.installation })
  unfolding cut_at prune_anchor
  recut db s through anchor rows l kept = record {
    row = record s.row { pruned_through_seq = some through; pruned_through_hash = some anchor };
    installed = rw s.installed;
    anchor = some (record { seq = through; hash = anchor });
    anchored = refl;
    links = l;
    kept = kept;
  }

  -- Pruning a sound database leaves it sound. What it took is a prefix of the chain, of records that
  -- are all older than the cutoff; at least one record is left.
  pub prune_audit-IsSound :
      (cutoff : ℕ) (db db' : Database)
      → IsSound digest db
      → prune_audit cutoff db ≡ some db'
      → IsSound digest db'
        × (removed : List Record) × (db.audit ≡ removed ++ db'.audit)
        × All (λ r. r.ts < cutoff) removed
  unfolding prune_audit
  prune_audit-IsSound cutoff db db' s h = go (audit_prefix cutoff db.audit) refl
    where
      go :
          (p : Prefix)
          → audit_prefix cutoff db.audit ≡ p
          → IsSound digest db'
            × (removed : List Record) × (db.audit ≡ removed ++ db'.audit)
            × All (λ r. r.ts < cutoff) removed
      go nothing e =
          let same : db ≡ db' = ground (arith, e) in
          (
            subst (λ (d : Database). IsSound digest d) same s,
            [],
            ap (λ (d : Database). d.audit) same,
            tt,
          )
      go (range from through anchor) e =
          let (n, g) = start s.anchor in
          let p =
            Pruned-Cut cutoff s.row.id n g db.audit from through anchor s.links
              (Ranged-range cutoff db.audit from through anchor e) in
          let same : record {
            audit = after through db.audit;
            installation = cut_at through anchor db.installation;
          }
              ≡ db' =
            ground (arith, e) in
          (
            subst (λ (d : Database). IsSound digest d) same
                (recut db s through anchor (after through db.audit) p.links p.kept),
            p.removed,
            p.split
                ∙ ap (λ (rows : List Record). p.removed ++ rows)
                    (ap (λ (d : Database). d.audit) same),
            p.old,
          )
      go unreadable_range e = absurd (ground (arith, e))
      go no_anchor_hash e = absurd (ground (arith, e))

  first_young-seq :
      (cutoff : ℕ) (r : Record) (rows : List Record)
      → cutoff ≤ r.ts
      → keep_from cutoff (r ∷ rows) ≡ some r.seq
  unfolding keep_from first_young
  first_young-seq cutoff r rows h = ground arith

  -- Once retention has cut the chain after record `a`, a pass that finds the first record that is
  -- left young enough to keep, so that there is nothing to remove, fails.
  pub prune_audit_again :
      (cutoff : ℕ) (db : Database) (s : IsSound digest db) (a : Anchor) (r : Record)
      (rows : List Record)
      → s.anchor ≡ some a
      → 0 < a.seq
      → db.audit ≡ r ∷ rows
      → cutoff ≤ r.ts
      → prune_audit cutoff db ≡ none
  unfolding prune_audit audit_prefix read_range
  prune_audit_again cutoff db s a r rows e pos split young =
      let l : Links (compute digest) s.row.id a.seq a.hash (r ∷ rows) =
        subst (λ (x : List Record). Links (compute digest) s.row.id a.seq a.hash x) split
          (subst
            (λ (x : Option Anchor).
              Links (compute digest) s.row.id (start x).0 (start x).1 db.audit)
            e s.links) in
      let k = first_young-seq cutoff r rows young in
      let low = min_below-first s.row.id a.seq r.seq a.hash (r ∷ rows) (omega (arith, l.1)) l in
      rw split (ground (arith, k, low, l.1))

  hash_at-named :
      (n : ℕ) (rows : List Record) (a : String)
      → All (λ r. str_eq r.hash "" ≡ false) rows
      → hash_at n rows ≡ some a
      → str_eq a "" ≡ false
  unfolding hash_at
  hash_at-named n [] a named h = absurd (cc h)
  hash_at-named n (r ∷ rows) a named h = ground (arith, hash_at-named n rows a named.1, named.0)

  -- The range that is read in front of a cut that removes something.
  read_range-front :
      (i : String) (n k : ℕ) (h : String) (r : Record) (front : List Record) (first : Record)
      (kept : List Record)
      → Links (compute digest) i n h (r ∷ front ++ first ∷ kept)
      → All (λ x. str_eq x.hash "" ≡ false) (r ∷ front ++ first ∷ kept)
      → first.seq ≡ k
      → read_range k (r ∷ front ++ first ∷ kept)
        ≡ range r.seq (k - 1) (last_of r.seq r.hash front).1
  unfolding read_range min_below
  read_range-front i n k h r front first kept l named at =
      let last = last_of r.seq r.hash front in
      let next = (Links-suffix i n h (r ∷ front) (first ∷ kept) l).1 in
      let past = last_of-lt i r.seq r.hash front (first ∷ kept) l.4 in
      let hash : hash_at (k - 1) (r ∷ front ++ first ∷ kept) ≡ some last.1 =
        ap (λ (m : ℕ). hash_at m (r ∷ front ++ first ∷ kept)) {x = k - 1} {y = last.0}
          (omega (arith, next, at))
        ∙ hash_at-front i n h r front (first ∷ kept) l in
      let full = hash_at-named (k - 1) (r ∷ front ++ first ∷ kept) last.1 named hash in
      ground (arith, hash, full, next, past, at)

  uncut_range :
      (cutoff k : ℕ) (db : Database) (s : IsSound digest db)
      → s.anchor ≡ none
      → All (λ r. str_eq r.hash "" ≡ false) db.audit
      → (front : List Record) (first : Record) (kept : List Record)
      → db.audit ≡ front ++ first ∷ kept
      → first.seq ≡ k
      → leb k 1 ≡ false
      → (from : ℕ) × (through : ℕ) × (anchor : String) × (read_range k db.audit
          ≡ range from through anchor)
  uncut_range cutoff k db s e named [] first kept split at high =
      let l : Links (compute digest) s.row.id (start s.anchor).0 (start s.anchor).1 (first ∷ kept) =
        rw split at s.links in
      absurd (ground (arith, l.1, ap (λ (x : Option Anchor). (start x).0) e))
  uncut_range cutoff k db s e named (r ∷ front) first kept split at high =
      let l : Links (compute digest) s.row.id (start s.anchor).0 (start s.anchor).1
          (r ∷ front ++ first ∷ kept) =
        rw split at s.links in
      (
        r.seq,
        k - 1,
        (last_of r.seq r.hash front).1,
        ap (λ (x : List Record). read_range k x) split
            ∙ read_range-front s.row.id (start s.anchor).0 k (start s.anchor).1 r front first kept l
                (rw split at named) at,
      )

  -- A database that was never cut can be pruned, if no record carries an empty hash.
  prune_audit_first :
      (cutoff : ℕ) (db : Database) (s : IsSound digest db)
      → s.anchor ≡ none
      → All (λ r. str_eq r.hash "" ≡ false) db.audit
      → (db' : Database) × (prune_audit cutoff db ≡ some db')
  unfolding prune_audit audit_prefix
  prune_audit_first cutoff db s e named = elim (Option-cases (keep_from cutoff db.audit)) [
    | inl f ↦ (db, ground (arith, f))
    | inr (k, f) ↦ elim (Bool-cases (leb k 1)) [
      | inl low ↦ (db, ground (arith, f, low))
      | inr high ↦
          let c = Cut-keep_from cutoff k db.audit f in
          let (from, through, anchor, r) =
            uncut_range cutoff k db s e named c.removed c.first c.kept c.split c.at_cut high in
          (
            record {
              audit = after through db.audit;
              installation = cut_at through anchor db.installation;
            },
            ground (arith, f, high, r),
          )
    ]
  ]
