-- ===== src/Retention.antt =====
-- internal/retention/retention.go: here `auditPrefix` and `pruneAudit`. A cutoff is a moment; a comparison of stored stamps is one of moments, since
-- `TimeFormat` has a fixed width.
pub mod Sound
pub mod History
pub mod Usage
pub mod Pass
mod Tests
use nodary.Prelude.{
  ℕ, suc, ◌-◌, ◌*◌, String, ◌≡◌, Bool, true, false, Option, none, some, List, [], ◌∷◌, ltb, leb,
  ◌==◌, str_eq, if◌then◌else◌,
}
use nodary.Audit.Record.{Record, truncate_ms}
use nodary.Audit.Database.{Installation, Database}

-- The seq of the first record, by sequence, that is young enough to keep.
unfoldable pub first_young : ℕ → List Record → Option ℕ
first_young cutoff [] = none
first_young cutoff (r ∷ rs) = if leb cutoff r.ts then some r.seq else first_young cutoff rs

unfoldable pub last_seq : List Record → Option ℕ
last_seq [] = none
last_seq (r ∷ []) = some r.seq
last_seq (r ∷ s ∷ rs) = last_seq (s ∷ rs)

-- Where to keep from: the first young record, or else the last one.
unfoldable pub keep_from : ℕ → List Record → Option ℕ
keep_from cutoff rows = elim (first_young cutoff rows) [ some n ↦ some n | none ↦ last_seq rows ]

-- `min(seq)` over the rows below `n`; SQL's NULL is `none`.
unfoldable pub min_below : ℕ → List Record → Option ℕ
min_below n [] = none
min_below n (r ∷ rs) = if ltb r.seq n then some r.seq else min_below n rs

unfoldable pub hash_at : ℕ → List Record → Option String
hash_at n [] = none
hash_at n (r ∷ rs) = if r.seq == n then some r.hash else hash_at n rs

-- `auditPrefix`. A NULL in the row that it scans is an error, as is an empty hash.
pub data Prefix : Type 0 where
  nothing : Prefix
  range : ℕ → ℕ → String → Prefix
  unreadable_range : Prefix
  no_anchor_hash : Prefix

unfoldable pub read_range : ℕ → List Record → Prefix
read_range n rows = elim (min_below n rows) [
  | none ↦ unreadable_range
  | some from ↦ elim (hash_at (n - 1) rows) [
    | none ↦ unreadable_range
    | some anchor ↦ if str_eq anchor "" then no_anchor_hash else range from (n - 1) anchor
  ]
]

unfoldable pub audit_prefix : ℕ → List Record → Prefix
audit_prefix cutoff rows = elim (keep_from cutoff rows) [
  | none ↦ nothing
  | some n ↦ if leb n 1 then nothing else read_range n rows
]

unfoldable pub after : ℕ → List Record → List Record
after n [] = []
after n (r ∷ rs) = if leb r.seq n then after n rs else r ∷ after n rs

cut_at : ℕ → String → Option Installation → Option Installation
cut_at n h none = none
cut_at n h (some i) = some (record i { pruned_through_seq = some n; pruned_through_hash = some h })

-- `pruneAudit`: the new database, or `none` for its error, which rolls the transaction back.
unfoldable pub prune_audit : ℕ → Database → Option Database
unfolding cut_at
prune_audit cutoff db = elim (audit_prefix cutoff db.audit) [
  | nothing ↦ some db
  | range from through anchor ↦ some (record {
    audit = after through db.audit;
    installation = cut_at through anchor db.installation;
  })
  | unreadable_range ↦ none
  | no_anchor_hash ↦ none
]
