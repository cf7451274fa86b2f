-- ===== src/Identity/Totp.antt =====
-- internal/identity/totp.go: the step of a moment, the code of a step, and the verification of a
-- code, which spends its step. A byte and a character are numbers, a moment is a number of seconds
-- since 1970, and a step counts from there. The sealing of the seed is left out. `hmac seed message` is HMAC-SHA-1, 20 bytes.
pub mod Spent
use nodary.Prelude.{
  ℕ, zero, suc, ◌+◌, ◌-◌, ◌*◌, ◌/◌, ◌%◌, ◌^◌, Bool, true, false, ◌&&◌, ◌||◌, Option, none, some,
  List, [], ◌∷◌, ◌++◌, ltb, leb, ◌==◌, if◌then◌else◌, length,
}

abbrev pub step_seconds : ℕ
step_seconds = 30

abbrev pub digits : ℕ
digits = 6

abbrev pub skew : ℕ
skew = 1

unfoldable pub step_at : ℕ → ℕ
step_at now = now / step_seconds

-- The lowest `n` bytes of a number, the highest first.
unfoldable pub big_endian : ℕ → ℕ → List ℕ
big_endian zero x = []
big_endian (suc n) x = big_endian n (x / 256) ++ (x % 256 ∷ [])

-- A byte of a list, 0 past its end: the code reads only within the 20 bytes of a sum.
unfoldable pub byte_at : ℕ → List ℕ → ℕ
byte_at i [] = 0
byte_at zero (b ∷ bs) = b
byte_at (suc i) (b ∷ bs) = byte_at i bs

-- `n` decimal digits, with leading zeros, of a number below `10 ^ n`.
unfoldable pub decimal : ℕ → ℕ → List ℕ
decimal zero x = []
decimal (suc n) x = decimal n (x / 10) ++ ((48 + x % 10) ∷ [])

unfoldable pub truncated : List ℕ → ℕ
truncated sum =
    let offset = byte_at (length sum - 1) sum % 16 in
    (byte_at offset sum * 256 ^ 3
      + byte_at (offset + 1) sum * 256 ^ 2
      + byte_at (offset + 2) sum * 256
      + byte_at (offset + 3) sum)
    % 2 ^ 31

unfoldable pub list_eq : List ℕ → List ℕ → Bool
list_eq [] [] = true
list_eq (x ∷ xs) (y ∷ ys) = (x == y) && list_eq xs ys
list_eq _ _ = false

-- The digits of what was typed, without spaces and dashes; `none` at any other character.
unfoldable pub only_digits : List ℕ → Option (List ℕ)
only_digits [] = some []
only_digits (c ∷ cs) =
    let rest = only_digits cs in
    if leb 48 c && leb c 57
    then (elim rest [ none ↦ none | some ds ↦ some (c ∷ ds) ])
    else (if (c == 32) || (c == 45) then rest else none)

unfoldable pub normalize_code : List ℕ → Option (List ℕ)
normalize_code code = elim (only_digits code) [
  | none ↦ none
  | some ds ↦ if length ds == digits then some ds else none
]

-- `floor` is `none` for the -1 of an account that has spent no step.
unfoldable pub above : Option ℕ → ℕ → Bool
above none step = true
above (some floor) step = ltb floor step

-- The columns of an account that a verification reads and writes.
pub record Account : Type 0 where
  pub active : Bool
  pub seed : Option (List ℕ)
  pub last_step : Option ℕ

-- Why a code is refused.
pub data Refused : Type 0 where
  not_active : Refused
  not_enrolled : Refused
  bad_code : Refused

module _ (hmac : List ℕ → List ℕ → List ℕ) where
  unfoldable pub code_at : List ℕ → ℕ → List ℕ
  code_at seed step = decimal digits (truncated (hmac seed (big_endian 8 step)) % 10 ^ digits)

  -- The loop from `step` on, over `n` candidates: the last match wins.
  unfoldable pub match_from : List ℕ → List ℕ → Option ℕ → ℕ → ℕ → Option ℕ → Option ℕ
  match_from seed ds floor zero step found = found
  match_from seed ds floor (suc n) step found =
      match_from seed ds floor n (step + 1)
        (if above floor step && list_eq (code_at seed step) ds then some step else found)

  -- The moment is at least one step after 1970.
  unfoldable pub verify_code : List ℕ → List ℕ → ℕ → Option ℕ → Option ℕ
  verify_code seed code now floor = elim (normalize_code code) [
    | none ↦ none
    | some ds ↦ match_from seed ds floor (2 * skew + 1) (step_at now - skew) none
  ]

  -- The UPDATE with its condition, `none` where no row is written.
  unfoldable pub spend_step : Account → ℕ → Option Account
  spend_step a step =
      if above a.last_step step then some (record a { last_step = some step }) else none

  unfoldable pub verify_totp : Account → ℕ → List ℕ → Account × Option Refused
  verify_totp a now code =
      if a.active
      then (elim a.seed [
        | none ↦ (a, some Refused.not_enrolled)
        | some seed ↦ (elim (verify_code seed code now a.last_step) [
          | none ↦ (a, some Refused.bad_code)
          | some step ↦ (elim (spend_step a step) [
            | none ↦ (a, some Refused.bad_code)
            | some a' ↦ (a', none)
          ])
        ])
      ])
      else (a, some Refused.not_active)
