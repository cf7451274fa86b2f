-- ===== src/Retention/Pass.antt =====
-- `Prune` and `Plan` of internal/retention/retention.go.
pub mod Agree
pub mod Cutoff
use nodary.Prelude.{
  ◌>>=◌, ℕ, ◌+◌, ◌-◌, ◌*◌, ◌^◌, ◌%◌, String, Bool, true, false, ◌&&◌, ◌||◌, Option, none, some,
  List, [], ◌∷◌, ◌++◌, ltb, ◌==◌, if◌then◌else◌, length, map,
}
use nodary.Audit.Record.{truncate_ms, codes}
use nodary.Audit.Database.{Database}
use nodary.Canonical.Number.{text_eq}
use nodary.Retention.{
  Prefix, nothing, range, unreadable_range, no_anchor_hash, audit_prefix, prune_audit,
}
use nodary.Retention.Usage.{Usage, Daily, day_length, group_of, usage_before, prune_usage}

pub record Window : Type 0 where
  pub audit_days : ℕ
  pub usage_days : ℕ

-- What the pass touches. A join token is its expiry and a replay key its creation.
pub record Store : Type 0 where
  pub database : Database
  pub usage : List Usage
  pub daily : List Daily
  pub join_tokens : List ℕ
  pub idempotency : List ℕ

pub record Removed : Type 0 where
  pub audit_range : Option (ℕ × ℕ × String)
  pub usage_rows : ℕ
  pub usage_groups : ℕ
  pub join_tokens : ℕ
  pub idempotency_keys : ℕ
  pub usage_before : ℕ
  pub audit_before : ℕ

-- A `time.Duration` of so many days is a signed integer of 64 bits, and `Add` of its negation. No
-- moment that is stored lies before 0.
unfoldable pub before : ℕ → ℕ → ℕ
before now days =
    let d = (days * day_length) % 2 ^ 64 in
    truncate_ms (if ltb d (2 ^ 63) then now - d else now + (2 ^ 64 - d))

-- `joinTokenGrace` and `idempotencyWindow`.
abbrev pub grace : ℕ
grace = day_length

unfoldable pub start : Window → ℕ → Option Removed
start w now =
    if ltb w.audit_days 1 || ltb w.usage_days 1
    then none
    else some (record {
      audit_range = none;
      usage_rows = 0;
      usage_groups = 0;
      join_tokens = 0;
      idempotency_keys = 0;
      usage_before = before now w.usage_days;
      audit_before = before now w.audit_days;
    })

-- A `DELETE` of the moments before a cutoff, and the `count(*)` of them.
unfoldable pub not_before : ℕ → List ℕ → List ℕ
not_before cutoff [] = []
not_before cutoff (t ∷ ts) =
    let rest = not_before cutoff ts in if ltb t cutoff then rest else t ∷ rest

unfoldable pub count_before : ℕ → List ℕ → ℕ
count_before cutoff [] = 0
count_before cutoff (t ∷ ts) =
    let rest = count_before cutoff ts in if ltb t cutoff then rest + 1 else rest

-- The range that `auditPrefix` puts into the result, or `none` for its error.
abbrev pub range_of : Prefix → Option (Option (ℕ × ℕ × String))
range_of Prefix.nothing = some none
range_of (Prefix.range from through anchor) = some (some (from, through, anchor))
range_of Prefix.unreadable_range = none
range_of Prefix.no_anchor_hash = none

-- `Prune`: the new state and what was removed, or `none` for an error, which rolls it all back.
unfoldable pub prune : Window → ℕ → Store → Option (Store × Removed)
prune w now s = do
  r ← start w now
  let u = prune_usage r.usage_before s.usage s.daily
  database ← prune_audit r.audit_before s.database
  removed ← range_of (audit_prefix r.audit_before s.database.audit)
  some (
    record {
      database = database;
      usage = u.usage;
      daily = u.daily;
      join_tokens = not_before (truncate_ms (now - grace)) s.join_tokens;
      idempotency = not_before (truncate_ms (now - grace)) s.idempotency;
    },
    record r {
      audit_range = removed;
      usage_rows = u.rows_dropped;
      usage_groups = u.groups_written;
      join_tokens = count_before (truncate_ms (now - grace)) s.join_tokens;
      idempotency_keys = count_before (truncate_ms (now - grace)) s.idempotency;
    },
  )

-- The text that `Plan` counts the distinct values of: the day has a fixed width.
pub record Label : Type 0 where
  pub day : ℕ
  pub rest : List ℕ

abbrev pub label : Usage → Label
label u = record {
  day = (group_of u).day;
  rest = codes (group_of u).user ++ b'|' ∷ codes (group_of u).model;
}

unfoldable pub has_label : Label → List Usage → Bool
has_label l [] = false
has_label l (u ∷ us) = ((label u).day == l.day && text_eq (label u).rest l.rest) || has_label l us

unfoldable pub count_distinct : List Usage → ℕ
count_distinct [] = 0
count_distinct (u ∷ us) =
    let rest = count_distinct us in if has_label (label u) us then rest else rest + 1

-- `Plan`.
unfoldable pub plan : Window → ℕ → Store → Option Removed
plan w now s = do
  r ← start w now
  removed ← range_of (audit_prefix r.audit_before s.database.audit)
  some (record r {
    audit_range = removed;
    usage_rows = length (usage_before r.usage_before s.usage);
    usage_groups = count_distinct (usage_before r.usage_before s.usage);
    join_tokens = count_before (truncate_ms (now - grace)) s.join_tokens;
    idempotency_keys = count_before (truncate_ms (now - grace)) s.idempotency;
  })
