-- ===== src/Gateway/Limits.antt =====
-- `limit`, `tighten`, `limits`, `none` and `limitsFor` of internal/gateway/throttle.go.
-- A column that is NULL reads as 0.
pub mod Tightest
use nodary.Prelude.{
  ℕ, zero, suc, String, ◌≡◌, Bool, true, false, ◌&&◌, ◌||◌, List, [], ◌∷◌, ltb, ◌==◌, str_eq, ℤ,
  pos, negsuc, if◌then◌else◌,
}

-- "user:<id>", "role:<id>" or "global".
pub data Subject : Type 0 where
  nobody : Subject  -- the empty string of a zero `limit`
  user : String → Subject
  role : String → Subject
  global : Subject

-- One ceiling and who set it. The value 0 means that there is none.
pub record Limit : Type 0 where
  pub value : ℕ
  pub subject : Subject

pub record Limits : Type 0 where
  pub rpm : Limit
  pub tpm : Limit
  pub daily : Limit
  pub concurrent : Limit

-- A row of the table `limits`.
pub record Row : Type 0 where
  pub subject : Subject
  pub rpm : ℤ
  pub tpm : ℤ
  pub daily_tokens : ℤ
  pub max_concurrent : ℤ

pub record Principal : Type 0 where
  pub name : String
  pub id : String
  pub role : String

abbrev pub no_limit : Limit
no_limit = record { value = 0; subject = nobody }

abbrev pub no_limits : Limits
no_limits = record { rpm = no_limit; tpm = no_limit; daily = no_limit; concurrent = no_limit }

unfoldable pub tighten : Limit → ℤ → Subject → Limit
tighten l (negsuc n) s = l
tighten l (pos zero) s = l
tighten l (pos (suc n)) s =
    if (l.value == 0) || ltb (suc n) l.value then record { value = suc n; subject = s } else l

unfoldable pub none_apply : Limits → Bool
none_apply l =
    ((l.rpm.value == 0) && (l.tpm.value == 0))
    && ((l.daily.value == 0) && (l.concurrent.value == 0))

-- The WHERE clause of `limitsFor`.
unfoldable pub matches : Principal → Subject → Bool
matches p nobody = false
matches p (user id) = str_eq id p.name || str_eq id p.id
matches p (role id) = str_eq id p.role
matches p global = true

unfoldable pub tighten_row : Limits → Row → Limits
tighten_row l r = record {
  rpm = tighten l.rpm r.rpm r.subject;
  tpm = tighten l.tpm r.tpm r.subject;
  daily = tighten l.daily r.daily_tokens r.subject;
  concurrent = tighten l.concurrent r.max_concurrent r.subject;
}

unfoldable pub reduce : Principal → Limits → List Row → Limits
reduce p l [] = l
reduce p l (r ∷ rows) = reduce p (if matches p r.subject then tighten_row l r else l) rows

unfoldable pub limits_for : Principal → List Row → Limits
limits_for p rows = reduce p no_limits rows
