-- ===== src/Retention/History.antt =====
-- The life of a database: records are appended and old ones pruned, in any order.
use nodary.Prelude.{ℕ, String, ◌≡◌, Option, some}
use nodary.Audit.Record.{Record, Entry}
use nodary.Audit.Database.{Database, empty_database, appended, append_tx}
use nodary.Retention.{prune_audit}

module _ (digest : Record → Option String) where
  -- One committed transaction: an append, with what the random source would mint, or a pruning.
  pub data Step (db db' : Database) : Type 0 where
    record_entry :
        (minted : String) (e : Entry) (r : Record)
        → append_tx digest minted db e ≡ appended db' r
        → Step db db'
    prune : (cutoff : ℕ) → prune_audit cutoff db ≡ some db' → Step db db'

  pub data Reach : Database → Type 0 where
    fresh : Reach empty_database
    next : {db db' : Database} → Reach db → Step db db' → Reach db'
