-- ===== src/Audit/Tests.antt =====
-- Small chains, and the theorems on the audit chain at them.
use nodary.Prelude.{
  ℕ, String, ◌≡◌, ◌↔◌, ◌⊎◌, inl, refl, true, Option, none, some, List, [], ◌∷◌, ◌++◌, map, ◌==◌,
  if◌then◌else◌,
}
use nodary.Audit.Record.Valid.{IsWellFormed, validate_iff}
use nodary.Audit.Record.{
  Record, Entry, compute, validate, is_outcome, half_set, hex_hash, genesis_prev_hash,
}
use nodary.Audit.Verify.{
  Item, readable, damaged, Anchor, Result, VerifyOpts, empty_result, verify, fill, held, delete,
  lowest, join, finish, settle, count, offer, inspect, walk_from, walk_started, same_record, gap,
}
use nodary.Audit.Verify.Spec.{Verified, Links}
use nodary.Audit.Verify.Fuel.{verify_total}
use nodary.Audit.Verify.Sound.{verify-Verified}
use nodary.Audit.Verify.Complete.{verify-InOrder}
use nodary.Audit.Database.{
  Database, appended, append_tx, empty_database, tail, install_row, insert_row, next_record,
  verdict, verify_db, prune_anchor, db_opts, check_empty, empty_is_genuine,
}
use nodary.Audit.Database.Sound.{IsSound, append-IsSound, verify_db-IsSound}
use nodary.Audit.Database.Detect.{verify_db-Verified}

-- A hash that depends on the number alone, with 64 characters.
abbrev pub digest : Record → Option String
digest r = some (
    if r.seq == 1
    then "1111111111111111111111111111111111111111111111111111111111111111"
    else "2222222222222222222222222222222222222222222222222222222222222222")

abbrev pub entry : String → Entry
entry action = record {
  ts = 5000000;
  actor = record { id = "root"; method = "local"; session = "" };
  source = record { ip = ""; version = "" };
  action = action;
  target = none;
  intent_hash = "";
  justification = "";
  outcome = "success";
  detail = "{}";
}

abbrev pub first : Record
first = record {
  v = 1;
  install = "ins_a";
  seq = 1;
  ts = 5000000;
  actor = record { id = "root"; method = "local"; session = "" };
  source = record { ip = ""; version = "" };
  action = "user.add";
  target = none;
  intent_hash = "";
  justification = "";
  outcome = "success";
  detail = "{}";
  prev_hash = genesis_prev_hash;
  hash = "1111111111111111111111111111111111111111111111111111111111111111";
}

abbrev pub second : Record
second = record first {
  seq = 2;
  action = "node.approve";
  prev_hash = "1111111111111111111111111111111111111111111111111111111111111111";
  hash = "2222222222222222222222222222222222222222222222222222222222222222";
}

abbrev pub one_record : Database
one_record = record {
  audit = first ∷ [];
  installation = some (record {
    id = "ins_a";
    created_at = 5000000;
    pruned_through_seq = none;
    pruned_through_hash = none;
  });
}

pub append_first :
    append_tx digest "ins_a" empty_database (entry "user.add") ≡ appended one_record first
unfolding append_tx compute validate is_outcome half_set hex_hash install_row next_record tail
    insert_row
append_first = refl

abbrev opts : VerifyOpts
opts = record { require_genesis = true; anchor = none }

-- Delivered out of order, and once too often.
shuffled :
    (verify (compute digest) (readable second ∷ readable first ∷ readable second ∷ []) opts)
    ≡ some (record empty_result {
      records = 2;
      first_seq = 1;
      last_seq = 2;
      first_prev_hash = genesis_prev_hash;
    })
unfolding verify fill held delete lowest join finish settle count offer inspect walk_from
    walk_started same_record compute
shuffled = refl

verify_total_example :
    (out : Result) × (verify (compute digest) (damaged ∷ readable second ∷ []) opts ≡ some out)
verify_total_example = verify_total (compute digest) (damaged ∷ readable second ∷ []) opts

verify-Verified_example :
    ((◌≡◌ {A = List Item} (readable second ∷ readable first ∷ readable second ∷ []) [])
      × (record empty_result {
        records = 2;
        first_seq = 1;
        last_seq = 2;
        first_prev_hash = genesis_prev_hash;
      }
          ≡ empty_result))
    ⊎ Verified
        (compute digest)
        (readable second ∷ readable first ∷ readable second ∷ [])
        opts
        (record empty_result {
          records = 2;
          first_seq = 1;
          last_seq = 2;
          first_prev_hash = genesis_prev_hash;
        })
verify-Verified_example =
    verify-Verified (compute digest) (readable second ∷ readable first ∷ readable second ∷ []) opts
      (record empty_result {
        records = 2;
        first_seq = 1;
        last_seq = 2;
        first_prev_hash = genesis_prev_hash;
      })
      shuffled refl

two-Links : Links (compute digest) "ins_a" 0 genesis_prev_hash (first ∷ second ∷ [])
unfolding compute
two-Links = (refl, refl, refl, refl, (refl, refl, refl, refl, tt))

first_joins : (join opts first).problem ≡ none
unfolding join
first_joins = refl

verify-InOrder_example :
    (out : Result) × (verify (compute digest) (readable first ∷ readable second ∷ []) opts
      ≡ some out)
    × (out.problem ≡ none)
    × (out.records ≡ 2)
    × (out.first_seq ≡ 1)
    × (out.last_seq ≡ 2)
    × (out.anchored ≡ (join opts first).anchored)
    × (out.fragment ≡ (join opts first).fragment)
    × (out.first_prev_hash ≡ genesis_prev_hash)
verify-InOrder_example =
    verify-InOrder (compute digest) "ins_a" 0 genesis_prev_hash first (second ∷ []) opts two-Links
      first_joins

append-IsSound_example : IsSound digest one_record × (one_record.audit ≡ [] ++ first ∷ [])
append-IsSound_example =
    append-IsSound digest "ins_a" empty_database one_record (entry "user.add") first append_first
      (inl refl)

verify_db-IsSound_example :
    (out : Result) × (verify_db digest one_record ≡ some (verdict out))
    × (out.problem ≡ none)
    × (out.records ≡ 1)
verify_db-IsSound_example = verify_db-IsSound digest one_record append-IsSound_example.0

abbrev counted : ℕ → Result
counted n = record empty_result {
  records = n;
  first_seq = 1;
  last_seq = n;
  first_prev_hash = genesis_prev_hash;
}

one_record_verifies : verify_db digest one_record ≡ some (verdict (counted 1))
unfolding verify_db prune_anchor db_opts check_empty empty_is_genuine verify fill held delete lowest
    join finish settle count offer inspect walk_from walk_started same_record compute
one_record_verifies = refl

verify_db-Verified_example :
    ((one_record.audit ≡ []) × (one_record.installation ≡ none) × ((counted 1).records ≡ 0))
    ⊎ ((anchor : Option Anchor) × (prune_anchor one_record.installation ≡ some anchor)
        × Verified (compute digest) (map readable one_record.audit) (db_opts anchor) (counted 1))
verify_db-Verified_example =
    verify_db-Verified digest one_record (counted 1) one_record_verifies refl

abbrev emptied : Database
emptied = record one_record { audit = [] }

abbrev emptied_result : Result
emptied_result = record empty_result { problem = some (record { seq = 1; kind = gap }) }

emptied_verdict : verify_db digest emptied ≡ some (verdict emptied_result)
unfolding verify_db prune_anchor db_opts check_empty empty_is_genuine verify fill held delete lowest
    join finish settle count offer inspect walk_from walk_started same_record compute
emptied_verdict = refl

validate_iff_example : (validate first ≡ none) ↔ IsWellFormed first
validate_iff_example = validate_iff first
