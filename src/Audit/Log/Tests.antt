-- ===== src/Audit/Log/Tests.antt =====
-- Audited acts on a counter.
use nodary.Prelude.{
  ℕ, ◌+◌, String, ◌≡◌, refl, true, Option, none, some, [], ◌∷◌, if◌then◌else◌, ltb,
}
use nodary.Audit.Record.{validate, compute, is_outcome, half_set, hex_hash}
use nodary.Audit.Database.{empty_database, append_tx, install_row, next_record, tail, insert_row}
use nodary.Audit.Log.{
  Request, Ran, succeeded, failed, Cause, Delivery, World, Environment, remembers, forget, emit_to,
  emit, blocked, stored_row, encodable, entry_for, record_only, commit_with, act,
}
use nodary.Audit.Log.Recorded.{Kept, act-recorded}
use nodary.Audit.Tests.{digest, first, one_record}

abbrev pub valid_same : String → String
valid_same s = s

abbrev no_detail : ℕ → Option (Cause ℕ) → String
no_detail noted cause = "{}"

abbrev pub environment : Environment
environment = record {
  now = 5000000;
  minted = "ins_a";
  commits = true;
  appends = true;
  serializes = λ r. true;
  takes = λ s r. true;
}

abbrev pub delivery : Delivery
delivery = record { sinks = "disk" ∷ []; block = true }

abbrev world : World ℕ
world = record { app = 7; db = empty_database; failing = [] }

abbrev broken_world : World ℕ
broken_world = record world { failing = "disk" ∷ [] }

abbrev request : Request
request = record {
  actor = record { id = "root"; method = "local"; session = "" };
  source = record { ip = ""; version = "" };
  action = "user.add";
  target = none;
  intent_hash = "";
  justification = "";
}

abbrev increase : ℕ → Ran ℕ ℕ ℕ
increase n = if ltb n 9 then succeeded (n + 1) 0 else failed 0 5

increase_once :
    act valid_same digest no_detail 0 delivery environment world request increase ≡ record {
      world = record { app = 8; db = one_record; failing = [] };
      stored = some first;
      error = none;
    }
unfolding act blocked commit_with record_only stored_row entry_for encodable emit emit_to forget
    remembers append_tx validate compute is_outcome half_set hex_hash install_row next_record tail
    insert_row
increase_once = refl

refused_once :
    (act valid_same digest no_detail 0 delivery environment broken_world request increase).stored
    ≡ some (record first { outcome = "failure" })
unfolding act blocked commit_with record_only stored_row entry_for encodable emit emit_to forget
    remembers append_tx validate compute is_outcome half_set hex_hash install_row next_record tail
    insert_row
refused_once = refl

act-recorded_example :
    Kept valid_same digest no_detail 0 environment world request increase
      (act valid_same digest no_detail 0 delivery environment world request increase)
act-recorded_example =
    act-recorded valid_same digest no_detail 0 delivery environment world request increase
