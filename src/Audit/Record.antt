-- ===== src/Audit/Record.antt =====
-- One audit record and the rules for entering the chain: internal/audit/record.go and the `Entry` of
-- internal/audit/chain.go. A moment is a number of nanoseconds, and 0 is Go's zero time.
pub mod Valid
use Prim.Native.Char.{code}
use Prim.Native.String as Str
use nodary.Prelude.{
  ℕ, suc, ◌*◌, ◌/◌, String, Bool, true, false, ◌&&◌, ◌||◌, not, Option, none, some, List, [], ◌∷◌,
  leb, length, ◌==◌, str_eq, if◌then◌else◌,
}

-- `TimeFormat` keeps three fractional digits of a second.
abbrev pub truncate_ms : ℕ → ℕ
truncate_ms t = t / 1000000 * 1000000

abbrev pub version : ℕ
version = 1

abbrev pub genesis_prev_hash : String
genesis_prev_hash = "0000000000000000000000000000000000000000000000000000000000000000"

pub record Actor : Type 0 where
  pub id : String
  pub method : String
  pub session : String

pub record Source : Type 0 where
  pub ip : String
  pub version : String

pub record Target : Type 0 where
  pub kind : String
  pub id : String

-- `detail` is the canonical JSON text of the detail map, as the column stores it.
pub record Entry : Type 0 where
  pub ts : ℕ
  pub actor : Actor
  pub source : Source
  pub action : String
  pub target : Option Target
  pub intent_hash : String
  pub justification : String
  pub outcome : String
  pub detail : String

pub record Record : Type 0 where
  pub v : ℕ
  pub install : String
  pub seq : ℕ
  pub ts : ℕ
  pub actor : Actor
  pub source : Source
  pub action : String
  pub target : Option Target
  pub intent_hash : String
  pub justification : String
  pub outcome : String
  pub detail : String
  pub prev_hash : String
  pub hash : String

abbrev pub codes : String → List ℕ
codes Str.[] = []
codes (Str.◌∷◌ c s) = code c ∷ codes s

is_hex : ℕ → Bool
is_hex c = (leb b'0' c && leb c b'9') || (leb b'a' c && leb c b'f')

all_hex : List ℕ → Bool
unfolding is_hex
all_hex [] = true
all_hex (c ∷ cs) = is_hex c && all_hex cs

-- The pattern `^[0-9a-f]{64}$`.
unfoldable pub hex_hash : String → Bool
unfolding all_hex
hex_hash s = all_hex (codes s) && (length (codes s) == 64)

unfoldable pub is_outcome : String → Bool
is_outcome o = str_eq o "success" || (str_eq o "failure" || str_eq o "partial")

-- The fields that `Validate` names in its errors, in the order of its tests.
pub data Invalid : Type 0 where
  v install seq ts actor_method action outcome prev_hash target : Invalid

unfoldable pub half_set : Option Target → Bool
half_set none = false
half_set (some t) = str_eq t.kind "" || str_eq t.id ""

-- `none` is the nil error.
unfoldable pub validate : Record → Option Invalid
validate r =
    if r.v == 0
    then some Invalid.v
    else if str_eq r.install ""
    then some Invalid.install
    else if r.seq == 0
    then some Invalid.seq
    else if r.ts == 0
    then some Invalid.ts
    else if str_eq r.actor.method ""
    then some Invalid.actor_method
    else if str_eq r.action ""
    then some Invalid.action
    else if not (is_outcome r.outcome)
    then some Invalid.outcome
    else if not (hex_hash r.prev_hash)
    then some Invalid.prev_hash
    else if half_set r.target
    then some Invalid.target
    else none

-- The fields that a record's hash is taken over: all but the hash.
abbrev pub preimage : Record → Record
preimage r = record r { hash = "" }

-- `Compute`. `digest` is the hexadecimal SHA-256 of the canonical JSON of a record's members, or
-- `none` where a member cannot be encoded.
unfoldable pub compute : (Record → Option String) → Record → Option String
compute digest r = digest (preimage r)
