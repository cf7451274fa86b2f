-- ===== src/Retention/Usage.antt =====
-- `pruneUsage` of internal/retention/retention.go: rows of `usage` are rolled into `usage_daily`. A day
-- is the number of the day of a moment, for the first ten characters of a stamp.
pub mod Totals
use nodary.Prelude.{
  ℕ, ◌+◌, ◌/◌, String, Bool, true, false, ◌&&◌, Option, none, some, List, [], ◌∷◌, ◌++◌, ltb, ◌==◌,
  str_eq, if◌then◌else◌, length,
}

abbrev pub day_length : ℕ
day_length = 86400000000000

-- The primary key of `usage_daily`.
pub record Group : Type 0 where
  pub day : ℕ
  pub user : String
  pub model : String

pub record Usage : Type 0 where
  pub ts : ℕ
  pub user_id : Option String
  pub model_id : Option String
  pub prompt_tokens : ℕ
  pub completion_tokens : ℕ

pub record Daily : Type 0 where
  pub group : Group
  pub requests : ℕ
  pub prompt_tokens : ℕ
  pub completion_tokens : ℕ

abbrev pub coalesce : Option String → String
coalesce none = ""
coalesce (some s) = s

abbrev pub group_of : Usage → Group
group_of u = record {
  day = u.ts / day_length;
  user = coalesce u.user_id;
  model = coalesce u.model_id;
}

unfoldable pub same_group : Group → Group → Bool
same_group g h = (g.day == h.day) && (str_eq g.user h.user && str_eq g.model h.model)

abbrev pub start_group : Usage → Daily
start_group u = record {
  group = group_of u;
  requests = 1;
  prompt_tokens = u.prompt_tokens;
  completion_tokens = u.completion_tokens;
}

abbrev pub merge : Daily → Daily → Daily
merge d e = record d {
  requests = d.requests + e.requests;
  prompt_tokens = d.prompt_tokens + e.prompt_tokens;
  completion_tokens = d.completion_tokens + e.completion_tokens;
}

-- The `GROUP BY`: one more row in the group that it belongs to.
unfoldable pub group_into : Usage → List Daily → List Daily
group_into u [] = start_group u ∷ []
group_into u (d ∷ ds) =
    let rest = group_into u ds in
    if same_group d.group (group_of u) then merge d (start_group u) ∷ ds else d ∷ rest

unfoldable pub groups : List Usage → List Daily
groups [] = []
groups (u ∷ us) = group_into u (groups us)

-- The `ON CONFLICT` of one group.
unfoldable pub upsert_group : Daily → List Daily → List Daily
upsert_group g [] = g ∷ []
upsert_group g (d ∷ ds) =
    let rest = upsert_group g ds in if same_group d.group g.group then merge d g ∷ ds else d ∷ rest

unfoldable pub roll : List Daily → List Daily → List Daily
roll [] table = table
roll (g ∷ gs) table = roll gs (upsert_group g table)

-- The rows with `ts < cutoff`, and the others.
unfoldable pub usage_before : ℕ → List Usage → List Usage
usage_before cutoff [] = []
usage_before cutoff (u ∷ us) =
    let rest = usage_before cutoff us in if ltb u.ts cutoff then u ∷ rest else rest

unfoldable pub usage_from : ℕ → List Usage → List Usage
usage_from cutoff [] = []
usage_from cutoff (u ∷ us) =
    let rest = usage_from cutoff us in if ltb u.ts cutoff then rest else u ∷ rest

-- `pruneUsage`.
pub record Rolled : Type 0 where
  pub usage : List Usage
  pub daily : List Daily
  pub groups_written : ℕ
  pub rows_dropped : ℕ

unfoldable pub prune_usage : ℕ → List Usage → List Daily → Rolled
prune_usage cutoff usage daily = record {
  usage = usage_from cutoff usage;
  daily = roll (groups (usage_before cutoff usage)) daily;
  groups_written = length (groups (usage_before cutoff usage));
  rows_dropped = length (usage_before cutoff usage);
}
