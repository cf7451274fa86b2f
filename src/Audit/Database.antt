-- ===== src/Audit/Database.antt =====
-- The chain in the database: `AppendTx`, `tail` and `installID` of internal/audit/chain.go, and
-- `VerifyDB`, `emptyChainIsGenuine` and `pruneAnchor` of internal/audit/verify.go.
-- The table `audit` is a list in the order of its primary key, which is what `ORDER BY seq` reads.
-- A refused transaction rolls back, so a refusal carries no state.
pub mod Sound
pub mod Detect
use nodary.Prelude.{
  ℕ, suc, ◌+◌, String, ◌≡◌, Bool, true, false, ◌&&◌, ◌||◌, not, Option, none, some, List, [], ◌∷◌,
  ltb, length, map, ◌==◌, str_eq, if◌then◌else◌,
}
use nodary.Audit.Record.{
  Record, Entry, Invalid, validate, compute, codes, truncate_ms, version, genesis_prev_hash,
}
use nodary.Audit.Verify.{Item, readable, Anchor, Kind, gap, Result, VerifyOpts, stop_with, verify}

pub record Installation : Type 0 where
  pub id : String
  pub created_at : ℕ
  pub pruned_through_seq : Option ℕ
  pub pruned_through_hash : Option String

pub record Database : Type 0 where
  pub audit : List Record
  pub installation : Option Installation

abbrev pub empty_database : Database
empty_database = record { audit = []; installation = none }

-- The number and the hash of the last record, or those before the first.
unfoldable pub tail : List Record → ℕ × String
tail [] = (0, genesis_prev_hash)
tail (r ∷ []) = (r.seq, r.hash)
tail (r ∷ s ∷ rs) = tail (s ∷ rs)

-- `installID`: the row there is, or a new one. `minted` is what the random source gives.
unfoldable pub install_row : String → ℕ → Option Installation → Installation
install_row minted now (some i) = i
install_row minted now none = record {
  id = minted;
  created_at = truncate_ms now;
  pruned_through_seq = none;
  pruned_through_hash = none;
}

-- The UNIQUE columns of the table.
clashes : Record → List Record → Bool
clashes r [] = false
clashes r (x ∷ xs) =
    ((x.seq == r.seq) || (str_eq x.prev_hash r.prev_hash || str_eq x.hash r.hash)) || clashes r xs

insert_ordered : Record → List Record → List Record
insert_ordered r [] = r ∷ []
insert_ordered r (x ∷ xs) = if ltb r.seq x.seq then r ∷ x ∷ xs else x ∷ insert_ordered r xs

-- The INSERT: `none` where a constraint of the table refuses it.
unfoldable pub insert_row : Record → List Record → Option (List Record)
unfolding clashes insert_ordered
insert_row r rows =
    if clashes r rows || not (length (codes r.hash) == 64)
    then none
    else some (insert_ordered r rows)

pub data Append : Type 0 where
  appended : Database → Record → Append
  invalid : Invalid → Append
  unhashable : Append  -- `Compute` fails
  constraint : Append  -- the table refuses the row

-- The record that `AppendTx` builds, before its hash is known.
unfoldable pub next_record : Installation → List Record → Entry → Record
next_record i rows e = record {
  v = version;
  install = i.id;
  seq = (tail rows).0 + 1;
  ts = truncate_ms e.ts;
  actor = e.actor;
  source = e.source;
  action = e.action;
  target = e.target;
  intent_hash = e.intent_hash;
  justification = e.justification;
  outcome = e.outcome;
  detail = e.detail;
  prev_hash = (tail rows).1;
  hash = "";
}

abbrev pub with_hash : Record → String → Record
with_hash r h = record r { hash = h }

pub data VerifyDb : Type 0 where
  verdict : Result → VerifyDb
  half_written_anchor : VerifyDb

-- `pruneAnchor`: `none` is its error, `some none` that retention never cut the chain.
unfoldable pub prune_anchor : Option Installation → Option (Option Anchor)
prune_anchor none = some none
prune_anchor (some i) = elim i.pruned_through_seq [
  | none ↦ elim i.pruned_through_hash [ none ↦ some none | some h ↦ none ]
  | some n ↦ elim i.pruned_through_hash [
    | none ↦ none
    | some h ↦ some (some (record { seq = n; hash = h }))
  ]
]

unfoldable pub db_opts : Option Anchor → VerifyOpts
db_opts none = record { require_genesis = true; anchor = none }
db_opts (some a) = record { require_genesis = false; anchor = some a }

-- `emptyChainIsGenuine`: an empty chain beside an installation row was emptied.
unfoldable pub empty_is_genuine : Option Installation → Result → Result
empty_is_genuine none res = res
empty_is_genuine (some i) res = stop_with res 1 gap

unfoldable pub check_empty : Option Installation → Result → Result
check_empty i res = elim res.problem [
  | some p ↦ res
  | none ↦ if res.records == 0 then empty_is_genuine i res else res
]

module _ (digest : Record → Option String) where
  unfoldable pub append_tx : String → Database → Entry → Append
  append_tx minted db e =
      let i = install_row minted e.ts db.installation in
      let r = next_record i db.audit e in
      elim (validate r) [
        | some field ↦ invalid field
        | none ↦ elim (compute digest r) [
          | none ↦ unhashable
          | some h ↦ elim (insert_row (with_hash r h) db.audit) [
            | none ↦ constraint
            | some rows ↦ appended (record { audit = rows; installation = some i }) (with_hash r h)
          ]
        ]
      ]

  -- `none` would mean that the walk's fuel ran out.
  unfoldable pub verify_db : Database → Option VerifyDb
  verify_db db = elim (prune_anchor db.installation) [
    | none ↦ some half_written_anchor
    | some anchor ↦ elim (verify (compute digest) (map readable db.audit) (db_opts anchor)) [
      | none ↦ none
      | some res ↦ some (verdict (check_empty db.installation res))
    ]
  ]
