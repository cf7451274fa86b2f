-- ===== src/Audit/Log.antt =====
-- `Log.Act` of internal/audit/log.go with `Delivery` of internal/audit/sink.go: one audited mutation.
-- What the rest of the database holds is `App`. A mutation is a function of it that fails with an
-- error, or succeeds, or says that its effect reached outside of the transaction (`Partial`); each
-- with what it noted down. `snapshot` gives the JSON text of what was noted and of an error.
-- `valid` is `strings.ToValidUTF8`. Whether a transaction commits, and whether a sink takes a record, is
-- the environment's to say. The texts of errors and the warnings are left out.
pub mod Recorded
pub mod Delivered
pub mod Tests
use nodary.Prelude.{
  ℕ, String, Bool, true, false, ◌&&◌, ◌||◌, not, Option, none, some, List, [], ◌∷◌, str_eq,
  if◌then◌else◌, ◌==◌,
}
use nodary.Audit.Record.{Record, Entry, Actor, Source, Target}
use nodary.Audit.Database.{Database, Append, appended, invalid, unhashable, constraint, append_tx}

pub record Request : Type 0 where
  pub actor : Actor
  pub source : Source
  pub action : String
  pub target : Option Target
  pub intent_hash : String
  pub justification : String

-- What a mutation returns.
pub data Ran (App Detail Error : Type 0) : Type 0 where
  succeeded : App → Detail → Ran App Detail Error
  partially : App → Detail → Error → Ran App Detail Error
  failed : Detail → Error → Ran App Detail Error

-- The error of an act. `also_transaction` joins the transaction's own to it, and `unrecorded` is one
-- that has no record.
pub data Cause (Error : Type 0) : Type 0 where
  delivery_blocked : Cause Error
  mutation : Error → Cause Error
  transaction : Cause Error
  also_transaction : Cause Error → Cause Error
  unrecorded : Cause Error → Cause Error

pub record Delivery : Type 0 where
  pub sinks : List String
  pub block : Bool

pub record World (App : Type 0) : Type 0 where
  pub app : App
  pub db : Database
  pub failing : List String

-- What one act meets. `commits` is of the transaction with the change, `appends` of one with a record only.
pub record Environment : Type 0 where
  pub now : ℕ
  pub minted : String
  pub commits : Bool
  pub appends : Bool
  pub serializes : Record → Bool
  pub takes : String → Record → Bool

pub record Acted (App Error : Type 0) : Type 0 where
  pub world : World App
  pub stored : Option Record
  pub error : Option (Cause Error)

unfoldable pub remembers : String → List String → Bool
remembers s [] = false
remembers s (f ∷ fs) = str_eq f s || remembers s fs

unfoldable pub forget : String → List String → List String
forget s [] = []
forget s (f ∷ fs) = let rest = forget s fs in if str_eq f s then rest else f ∷ rest

-- `Emit`, of a record that the sinks take or not.
unfoldable pub emit_to : List String → (String → Bool) → List String → List String
emit_to [] takes failing = failing
emit_to (s ∷ ss) takes failing =
    emit_to ss takes
      (if takes s then forget s failing else if remembers s failing then failing else s ∷ failing)

-- `emit`.
unfoldable pub emit : Delivery → Environment → Record → List String → List String
emit d env r failing =
    if r.seq == 0
    then failing
    else if not (env.serializes r)
    then failing
    else emit_to d.sinks (λ s. env.takes s r) failing

-- `Blocked`.
unfoldable pub blocked : Delivery → List String → Bool
blocked d [] = false
blocked d (f ∷ fs) = d.block

-- The new database and the record; `none` for any error of `AppendTx`.
unfoldable pub stored_row : Append → Option (Database × Record)
stored_row (appended db r) = some (db, r)
stored_row _ = none

module _ (valid : String → String) where
  unfoldable pub encodable : Request → Request
  encodable req = record {
    actor = record {
      id = valid req.actor.id;
      method = valid req.actor.method;
      session = valid req.actor.session;
    };
    source = record { ip = valid req.source.ip; version = valid req.source.version };
    action = valid req.action;
    target = elim req.target [
      | none ↦ none
      | some t ↦ some (record { kind = valid t.kind; id = valid t.id })
    ];
    intent_hash = valid req.intent_hash;
    justification = valid req.justification;
  }

  -- `entry`, with the text of the details.
  unfoldable pub entry_for : ℕ → Request → String → String → Entry
  entry_for now req0 outcome detail =
      let req = encodable req0 in
      record {
        ts = now;
        actor = req.actor;
        source = req.source;
        action = req.action;
        target = req.target;
        intent_hash = req.intent_hash;
        justification = req.justification;
        outcome = outcome;
        detail = detail;
      }

  module _ (digest : Record → Option String) {App Detail Error : Type 0}
      (snapshot : Detail → Option (Cause Error) → String) (nothing_noted : Detail) where
    -- A record alone, in a transaction of its own, and its delivery; where it cannot be stored the
    -- world stays as it was.
    unfoldable pub record_only :
        Delivery
        → Environment
        → World App
        → Request
        → String
        → Detail
        → Cause Error
        → Acted App Error
    record_only d env w req outcome noted cause =
        elim (stored_row (
          append_tx digest env.minted w.db
            (entry_for env.now req outcome (snapshot noted (some cause))))) [
              | some (db, r) ↦
                  if env.appends
                  then record {
                    world = record { app = w.app; db = db; failing = emit d env r w.failing };
                    stored = some r;
                    error = some cause;
                  }
                  else record { world = w; stored = none; error = some (unrecorded cause) }
              | none ↦ record { world = w; stored = none; error = some (unrecorded cause) }
            ]

    -- The transaction with the change and its record: `none` where nothing is committed.
    unfoldable pub commit_with :
        Delivery
        → Environment
        → World App
        → Request
        → String
        → App
        → String
        → Option (Cause Error)
        → Option (Acted App Error)
    commit_with d env w req outcome app detail cause =
        elim (stored_row
          (append_tx digest env.minted w.db (entry_for env.now req outcome detail))) [
            | some (db, r) ↦
                if env.commits
                then some (record {
                  world = record { app = app; db = db; failing = emit d env r w.failing };
                  stored = some r;
                  error = cause;
                })
                else none
            | none ↦ none
          ]

    unfoldable pub act :
        Delivery
        → Environment
        → World App
        → Request
        → (App → Ran App Detail Error)
        → Acted App Error
    act d env w req fn =
        if blocked d w.failing
        then record_only d env w req "failure" nothing_noted delivery_blocked
        else elim (fn w.app) [
          | succeeded app noted ↦
              elim (commit_with d env w req "success" app (snapshot noted none) none) [
                | some done ↦ done
                | none ↦ record { world = w; stored = none; error = some transaction }
              ]
          | partially app noted e ↦
              elim (commit_with d env w req "partial" app (snapshot noted (some (mutation e)))
                (some (mutation e))) [
                  | some done ↦ done
                  | none ↦ record_only d env w req "partial" noted (also_transaction (mutation e))
                ]
          | failed noted e ↦ record_only d env w req "failure" noted (mutation e)
        ]
