-- ===== src/Replay.antt =====
-- The idempotency of requests: internal/replay/replay.go and the middleware `idempotent` of
-- internal/api/idempotency.go. The table has one row for a key of a principal, so it is a
-- function. A moment is a number of milliseconds, the precision that is stored.
pub mod Once
mod Tests
use nodary.Prelude.{
  ℕ, ◌+◌, ◌-◌, ◌*◌, String, Bool, true, false, ◌&&◌, not, Option, none, some, ltb, leb, ◌==◌,
  str_eq, if◌then◌else◌,
}

-- A key is a client's own text, so it counts for one principal.
pub record ClaimKey : Type 0 where
  pub key : String
  pub principal : String

-- The status 0 means that the request has not been answered.
pub record Row : Type 0 where
  pub request : String
  pub status : ℕ
  pub response : String
  pub created_at : ℕ

pub record Response : Type 0 where
  pub status : ℕ
  pub body : String

abbrev pub window : ℕ
window = 24 * 3600000

abbrev pub same : ClaimKey → ClaimKey → Bool
same a b = str_eq a.key b.key && str_eq a.principal b.principal

unfoldable pub put : (ClaimKey → Option Row) → ClaimKey → Option Row → ClaimKey → Option Row
put table t row x = if same x t then row else table x

-- The key is the caller's, with the table that holds it; or what was answered before; or one of
-- the two errors.
pub data Claim : Type 0 where
  yours : (ClaimKey → Option Row) → Claim
  replayed : Response → Claim
  key_reused : Claim
  in_flight : Claim

unfoldable pub insert : ℕ → ClaimKey → String → (ClaimKey → Option Row) → Claim
insert now t request table =
    Claim.yours (
      put table t
        (some (record { request = request; status = 0; response = ""; created_at = now })))

unfoldable pub claim : ℕ → ClaimKey → String → (ClaimKey → Option Row) → Claim
claim now t request table = elim (table t) [
  | none ↦ (insert now t request table)
  | some r ↦
      if ltb r.created_at (now - window)
      then insert now t request table
      else if not (str_eq r.request request)
      then Claim.key_reused
      else if r.status == 0
      then Claim.in_flight
      else Claim.replayed (record { status = r.status; body = r.response })
]

unfoldable pub finish : ClaimKey → ℕ → String → (ClaimKey → Option Row) → ClaimKey → Option Row
finish t status sealed table = elim (table t) [
  | none ↦ table
  | some r ↦ (put table t (some (record r { status = status; response = sealed })))
]

unfoldable pub release : ClaimKey → (ClaimKey → Option Row) → ClaimKey → Option Row
release t table = elim (table t) [
  | none ↦ table
  | some r ↦ if r.status == 0 then put table t none else table
]

-- What the middleware does with the status of a handler that ran: `sealed` is the response under
-- seal, `none` where sealing failed.
unfoldable pub is_success : ℕ → Bool
is_success status = leb 200 status && leb status 299

unfoldable pub complete :
    ClaimKey → ℕ → Option String → (ClaimKey → Option Row) → ClaimKey → Option Row
complete t status sealed table =
    if is_success status
    then (elim sealed [ none ↦ (release t table) | some body ↦ (finish t status body table) ])
    else release t table
