-- ===== src/Audit/Record/Valid.antt =====
-- What `Validate` of internal/audit/record.go lets into the chain.
use nodary.Prelude.{
  ℕ, ◌≤◌, ◌<◌, String, ◌≡◌, ◌≢◌, ◌⊎◌, ◌↔◌, refl, true, false, Option, none, some, List, [], ◌∷◌,
  length, All, arith, eq_iff,
}
use nodary.Audit.Record.{Record, Target, codes, hex_hash, all_hex, is_outcome, half_set, validate}

abbrev pub IsHex : ℕ → Type 0
IsHex c = ((b'0' ≤ c) × (c ≤ b'9')) ⊎ ((b'a' ≤ c) × (c ≤ b'f'))

pub record IsWellFormed (r : Record) : Type 0 where
  pub v : 0 < r.v
  pub install : r.install ≢ ""
  pub seq : 0 < r.seq
  pub ts : 0 < r.ts
  pub actor_method : r.actor.method ≢ ""
  pub action : r.action ≢ ""
  pub outcome : (r.outcome ≡ "success") ⊎ ((r.outcome ≡ "failure") ⊎ (r.outcome ≡ "partial"))
  pub prev_hash : All IsHex (codes r.prev_hash) × (length (codes r.prev_hash) ≡ 64)
  pub target : (t : Target) → r.target ≡ some t → (t.kind ≢ "") × (t.id ≢ "")

all_hex-All : (cs : List ℕ) → (all_hex cs ≡ true) ↔ All IsHex cs
unfolding all_hex
all_hex-All [] = (λ h. tt, λ h. refl)
all_hex-All (c ∷ cs) =
    let (f, g) = all_hex-All cs in
    (λ h. (ground arith, f (ground arith)), λ h. ground (arith, g h.1, h.0))

hex_hash_iff : (s : String) → (hex_hash s ≡ true) ↔ (All IsHex (codes s) × (length (codes s) ≡ 64))
unfolding hex_hash
hex_hash_iff s =
    let (f, g) = all_hex-All (codes s) in
    (λ h. (f (ground arith), ground arith), λ h. ground (arith, g h.0, h.1))

outcome_iff :
    (o : String) → (is_outcome o ≡ true) ↔ ((o ≡ "success") ⊎ ((o ≡ "failure") ⊎ (o ≡ "partial")))
unfolding is_outcome
outcome_iff o = ground (arith, eq_iff o "success", eq_iff o "failure", eq_iff o "partial")

half_set_iff :
    (o : Option Target)
    → (half_set o ≡ false) ↔ ((t : Target) → o ≡ some t → (t.kind ≢ "") × (t.id ≢ ""))
unfolding half_set
half_set_iff none = (λ h t e. absurd (cc e), λ h. refl)
half_set_iff (some x) = (
  λ h t e. ground (arith, eq_iff x.kind "", eq_iff x.id "", eq_iff t.kind "", eq_iff t.id ""),
  λ h. ground (arith, eq_iff x.kind "", eq_iff x.id "", h x refl),
)

abbrev Filled : Record → Type 0
Filled r =
    (0 < r.v)
    × (r.install ≢ "")
    × (0 < r.seq)
    × (0 < r.ts)
    × (r.actor.method ≢ "")
    × (r.action ≢ "")

-- What the six plain tests of `validate` mean, and the three by helpers.
validate_tests :
    (r : Record)
    → validate r ≡ none
    → Filled r
      × ((is_outcome r.outcome ≡ true) × (hex_hash r.prev_hash ≡ true))
      × (half_set r.target ≡ false)
unfolding validate
validate_tests r h =
    ground (arith, eq_iff r.install "", eq_iff r.actor.method "", eq_iff r.action "")

validate_passes :
    (r : Record)
    → Filled r
    → is_outcome r.outcome ≡ true
    → hex_hash r.prev_hash ≡ true
    → half_set r.target ≡ false
    → validate r ≡ none
unfolding validate
validate_passes r f b c d =
    ground (arith, eq_iff r.install "", eq_iff r.actor.method "", eq_iff r.action "")

-- `validate` passes exactly the records that are well formed.
pub validate_iff : (r : Record) → (validate r ≡ none) ↔ IsWellFormed r
validate_iff r = (
  λ h.
      let (a, (b, c), d) = validate_tests r h in
      record {
        v = a.0;
        install = a.1;
        seq = a.2;
        ts = a.3;
        actor_method = a.4;
        action = a.5;
        outcome = (outcome_iff r.outcome).0 b;
        prev_hash = (hex_hash_iff r.prev_hash).0 c;
        target = (half_set_iff r.target).0 d;
      },
  λ w.
      validate_passes r (w.v, w.install, w.seq, w.ts, w.actor_method, w.action)
        ((outcome_iff r.outcome).1 w.outcome) ((hex_hash_iff r.prev_hash).1 w.prev_hash)
        ((half_set_iff r.target).1 w.target),
)
