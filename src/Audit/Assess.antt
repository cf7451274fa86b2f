-- ===== src/Audit/Assess.antt =====
-- `nodary audit verify` of internal/cli/audit.go: the chain, the mirror and how they relate. Whether
-- there is a database to read, and the printing of the report, are left out.
pub mod Segment
mod Tests
use nodary.Prelude.{String, Option, none, some, List, Bool, true, false, if◌then◌else◌}
use nodary.Audit.Record.{Record, compute}
use nodary.Audit.Verify.{Item, Result, Anchor}
use nodary.Audit.Database.{Database, VerifyDb, verdict, half_written_anchor, verify_db}
use nodary.Audit.Mirror.{
  Comparison, Compared, compared, unreadable_file, compare_rows, verify_file, verify_mirror,
  Assessment, is_sound, is_ok,
}

pub data Assess : Type 0 where
  assessed : Assessment → Assess
  exits : Assess  -- `ExitFailure` on an error

abbrev pub with_chain : Option Result → Option Result → Option Comparison → Option Assess
with_chain chain mirror cmp =
    some (assessed (record { chain = chain; mirror = mirror; comparison = cmp }))

-- The comparison, once the mirror has been read as a chain.
unfoldable pub relate : Option Result → Option Database → Result → List Item → Option Assess
relate chain none res items = with_chain chain (some res) none
relate chain (some db) res items =
    if is_sound (some res)
    then elim (compare_rows db.audit items) [
      | none ↦ none
      | some unreadable_file ↦ some exits
      | some (compared c) ↦ with_chain chain (some res) (some c)
    ]
    else with_chain chain (some res) none

module _ (digest : Record → Option String) where
  unfoldable pub read_mirror : Option Database → Option Anchor → List Item → Option Result
  read_mirror db (some a) items = verify_file (compute digest) items (some a)
  read_mirror none none items = verify_mirror (compute digest) none items
  read_mirror (some db) none items = verify_mirror (compute digest) (some db.audit) items

  unfoldable pub assess_mirror :
      Option Result → Option Database → Option Anchor → Option (List Item) → Option Assess
  assess_mirror chain db anchor none = with_chain chain none none
  assess_mirror chain db anchor (some items) = elim (read_mirror db anchor items) [
    | none ↦ none
    | some res ↦ relate chain db res items
  ]

  -- `none` would mean that the fuel of a loop ran out.
  unfoldable pub assess : Option Database → Option Anchor → Option (List Item) → Option Assess
  assess none anchor mirror = assess_mirror none none anchor mirror
  assess (some db) anchor mirror = elim (verify_db digest db) [
    | none ↦ none
    | some half_written_anchor ↦ some exits
    | some (verdict res) ↦ assess_mirror (some res) (some db) anchor mirror
  ]
