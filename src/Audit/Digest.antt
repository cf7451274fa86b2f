-- ===== src/Audit/Digest.antt =====
-- `members`, `Preimage` and `Compute` of internal/audit/record.go: the text that a record's hash is
-- taken over.
pub mod Binding
pub mod Chain
mod Tests
use nodary.Prelude.{◌>>=◌, ℕ, String, Option, none, some, if◌then◌else◌, true, false, str_eq, pos}
use nodary.Audit.Record.{Record, Target, codes}
use nodary.Canonical.Text.{Text}
use nodary.Canonical.Number.{text_eq}
use nodary.Canonical.Encode.{Value, Fields, null, str, int, obj, end, field, Numerals, encode_value}

abbrev pub nullable : String → Value
nullable s = if str_eq s "" then null else str (codes s)

-- `delete` on a map.
abbrev pub without : Text → Fields → Fields
without k end = end
without k (field l v fs) = elim (text_eq k l) [
  | true ↦ (without k fs)
  | false ↦ (field l v (without k fs))
]

abbrev pub target_value : Option Target → Value
target_value none = null
target_value (some t) =
    obj (field (codes "kind") (nullable t.kind) (field (codes "id") (nullable t.id) end))

-- `format_time` is the time in UTC in `TimeFormat`, and `detail_of` the detail map that the column's text
-- stands for.
module _ (format_time : ℕ → Text) (detail_of : String → Fields) where
  abbrev pub members : Record → Fields
  members r = field (codes "v") (int (pos r.v)) (
      field (codes "install") (str (codes r.install)) (
        field (codes "seq") (int (pos r.seq)) (
          field (codes "ts") (str (format_time r.ts)) (
            field (codes "actor")
              (obj (
                field (codes "id") (nullable r.actor.id) (
                  field (codes "method") (nullable r.actor.method)
                    (field (codes "session") (nullable r.actor.session) end))))
              (field (codes "source")
                (obj (
                  field (codes "ip") (nullable r.source.ip)
                    (field (codes "version") (nullable r.source.version) end)))
                (field (codes "action") (str (codes r.action)) (
                  field (codes "target") (target_value r.target) (
                    field (codes "intent_hash") (nullable r.intent_hash) (
                      field (codes "justification") (nullable r.justification) (
                        field (codes "outcome") (str (codes r.outcome)) (
                          field (codes "detail") (obj (detail_of r.detail)) (
                            field (codes "prev_hash") (str (codes r.prev_hash))
                              (field (codes "hash") (nullable r.hash) end)))))))))))))

  unfoldable pub preimage_value : Record → Value
  unfolding text_eq
  preimage_value r = obj (without (codes "hash") (members r))

  -- `Preimage`.
  unfoldable pub preimage_text : Numerals → Record → Option Text
  preimage_text m r = encode_value m (preimage_value r)

  -- `Compute`, for the hexadecimal SHA-256 of a text.
  unfoldable pub digest : Numerals → (Text → String) → Record → Option String
  digest m sha r = do t ← preimage_text m r; some (sha t)
