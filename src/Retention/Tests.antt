-- ===== src/Retention/Tests.antt =====
-- A chain of two records that is pruned, and the theorems on retention at it.
use nodary.Prelude.{
  ◌>>=◌, ◌≤◌, ◌-◌, ◌*◌, ◌+◌, ℕ, ◌<◌, String, ◌≡◌, ◌⊎◌, refl, Option, none, some, List, [], ◌∷◌,
  ◌++◌, arith, ◌==◌, if◌then◌else◌, All,
}
use nodary.Audit.Record.{truncate_ms, Record, compute, genesis_prev_hash}
use nodary.Audit.Database.{Installation, Database, prune_anchor}
use nodary.Audit.Database.Sound.{IsSound}
use nodary.Retention.{
  first_young, last_seq, keep_from, min_below, hash_at, read_range, audit_prefix, after,
  prune_audit,
}
use nodary.Retention.Sound.{prune_audit-IsSound, prune_audit_again}
use nodary.Retention.Usage.{
  Usage, Daily, day_length, group_of, same_group, group_into, groups, upsert_group, roll,
  usage_before, usage_from, prune_usage,
}
use nodary.Retention.Usage.Totals.{Measure, raw_total, daily_total, prune_usage-totals}
use nodary.Retention.Pass.{
  Window, Store, Removed, before, start, not_before, count_before, has_label, count_distinct, plan,
  prune,
}
use nodary.Retention.Pass.Agree.{plan-prune}
use nodary.Retention.Pass.Cutoff.{KeepsFrom, prune-KeepsFrom}
use nodary.Canonical.Number.{text_eq}
use nodary.Audit.Tests

abbrev digest : Record → Option String
digest r = some (if r.seq == 1 then "a1" else "a2")

abbrev first : Record
first = record {
  v = 1;
  install = "ins_a";
  seq = 1;
  ts = 5000000;
  actor = record { id = "root"; method = "local"; session = "" };
  source = record { ip = ""; version = "" };
  action = "user.add";
  target = none;
  intent_hash = "";
  justification = "";
  outcome = "success";
  detail = "{}";
  prev_hash = genesis_prev_hash;
  hash = "a1";
}

abbrev second : Record
second = record first { seq = 2; ts = 9000000; prev_hash = "a1"; hash = "a2" }

abbrev row : Installation
row = record {
  id = "ins_a";
  created_at = 5000000;
  pruned_through_seq = none;
  pruned_through_hash = none;
}

abbrev cut_row : Installation
cut_row = record row { pruned_through_seq = some 1; pruned_through_hash = some "a1" }

abbrev whole : Database
whole = record { audit = first ∷ second ∷ []; installation = some row }

abbrev pruned : Database
pruned = record { audit = second ∷ []; installation = some cut_row }

whole-IsSound : IsSound digest whole
unfolding compute prune_anchor
whole-IsSound = record {
  row = row;
  installed = refl;
  anchor = none;
  anchored = refl;
  links = (refl, refl, refl, refl, (refl, refl, refl, refl, tt));
  kept = λ e. cc;
}

pruned-IsSound : IsSound digest pruned
unfolding compute prune_anchor
pruned-IsSound = record {
  row = cut_row;
  installed = refl;
  anchor = some (record { seq = 1; hash = "a1" });
  anchored = refl;
  links = (refl, refl, refl, refl, tt);
  kept = λ e. cc;
}

prune_one : prune_audit 7000000 whole ≡ some pruned
unfolding prune_audit audit_prefix keep_from first_young read_range min_below hash_at after
prune_one = refl

prune_audit-IsSound_example :
    IsSound digest pruned
    × (removed : List Record) × (whole.audit ≡ removed ++ pruned.audit)
    × All (λ r. r.ts < 7000000) removed
prune_audit-IsSound_example =
    prune_audit-IsSound digest 7000000 whole pruned whole-IsSound prune_one

prune_audit_again_example : prune_audit 7000000 pruned ≡ none
unfolding pruned-IsSound
prune_audit_again_example =
    prune_audit_again digest 7000000 pruned pruned-IsSound (record { seq = 1; hash = "a1" }) second
      [] refl (omega arith) refl (omega arith)

-- Two requests of one day that are old, and a recent one of nobody.
abbrev request : Usage
request = record {
  ts = 1000000;
  user_id = some "usr_a";
  model_id = some "m|1";
  prompt_tokens = 10;
  completion_tokens = 2;
}

abbrev later_request : Usage
later_request = record request { ts = 2000000; prompt_tokens = 5 }

abbrev recent_request : Usage
recent_request = record request { ts = 200000000000000; user_id = none }

abbrev usage : List Usage
usage = request ∷ later_request ∷ recent_request ∷ []

abbrev aggregate : List Daily
aggregate =
    record {
      group = record { day = 0; user = "usr_a"; model = "m|1" };
      requests = 4;
      prompt_tokens = 40;
      completion_tokens = 8;
    }
    ∷ []

abbrev store : Store
store = record {
  database = whole;
  usage = usage;
  daily = aggregate;
  join_tokens = 3000000 ∷ 250000000000000 ∷ [];
  idempotency = 4000000 ∷ [];
}

abbrev window : Window
window = record { audit_days = 1; usage_days = 1 }

abbrev now : ℕ
now = 260000000000000

plan_of_pass :
    plan window now store
    ≡ some (record {
      audit_range = some (1, 1, "a1");
      usage_rows = 2;
      usage_groups = 1;
      join_tokens = 1;
      idempotency_keys = 1;
      usage_before = 173600000000000;
      audit_before = 173600000000000;
    })
unfolding plan start before count_before count_distinct has_label text_eq usage_before audit_prefix
    keep_from first_young last_seq min_below hash_at read_range
plan_of_pass = refl

rolled_up :
    (prune_usage 173600000000000 usage aggregate).daily
    ≡ record {
      group = record { day = 0; user = "usr_a"; model = "m|1" };
      requests = 6;
      prompt_tokens = 55;
      completion_tokens = 12;
    }
      ∷ []
unfolding prune_usage usage_before groups group_into upsert_group roll same_group
rolled_up = refl

-- Under a window of 300 years nothing is old, and all records but the last are cut.
abbrev three_centuries : Window
three_centuries = record { audit_days = 109575; usage_days = 1 }

cut_by_overflow : (plan three_centuries now store >>= (λ r. r.audit_range)) ≡ some (1, 1, "a1")
unfolding plan start before audit_prefix keep_from first_young last_seq min_below hash_at read_range
cut_by_overflow = refl

abbrev pruned_store : Store
pruned_store = record {
  database = pruned;
  usage = recent_request ∷ [];
  daily = (prune_usage 173600000000000 usage aggregate).daily;
  join_tokens = 250000000000000 ∷ [];
  idempotency = [];
}

abbrev removed_by_overflow : Removed
removed_by_overflow = record {
  audit_range = some (1, 1, "a1");
  usage_rows = 2;
  usage_groups = 1;
  join_tokens = 1;
  idempotency_keys = 1;
  usage_before = 173600000000000;
  audit_before = 8979724073709000000;
}

passed : prune three_centuries now store ≡ some (pruned_store, removed_by_overflow)
unfolding prune start before count_before not_before usage_before prune_usage groups group_into
    upsert_group roll same_group prune_audit audit_prefix keep_from first_young last_seq read_range
    min_below hash_at after usage_from
passed = refl

prune-KeepsFrom_example :
    ((109575 ≤ 106751)
      × KeepsFrom (truncate_ms (now - 109575 * day_length)) whole.audit pruned.audit)
    ⊎ ((106752 ≤ 109575)
        × (removed : List Record) × (last : Record) × (whole.audit ≡ removed ++ last ∷ [])
        × (pruned.audit ≡ last ∷ []))
prune-KeepsFrom_example =
    prune-KeepsFrom digest three_centuries now store pruned_store removed_by_overflow whole-IsSound
      passed (omega arith) (omega arith, (omega arith, tt))

plan-prune_example : plan window now store ≡ (prune window now store >>= (λ p. some p.1))
plan-prune_example = plan-prune window now store (
  (refl, (refl, (refl, (refl, (refl, tt))))),
  ((refl, (refl, (refl, (refl, (refl, tt))))), (tt, tt)),
)

prune_usage-totals_example :
    (raw_total Measure.prompt (group_of request) (prune_usage 173600000000000 usage aggregate).usage
        + daily_total Measure.prompt
            (group_of request)
            (prune_usage 173600000000000 usage aggregate).daily
      ≡ raw_total Measure.prompt (group_of request) usage
        + daily_total Measure.prompt (group_of request) aggregate)
    × All (λ u. 173600000000000 ≤ u.ts) (prune_usage 173600000000000 usage aggregate).usage
prune_usage-totals_example =
    prune_usage-totals 173600000000000 usage aggregate Measure.prompt (group_of request)
