-- ===== src/Identity/Tests.antt =====
-- Witnesses of the identity theorems.
use nodary.Prelude.{ℕ, ◌≤◌, ◌≡◌, true, none, some, ◌⊎◌, List, [], ◌∷◌, ◌++◌, ◌≢◌, arith, refl}
use nodary.Identity.Totp.{
  Account, Refused, skew, step_at, code_at, normalize_code, verify_totp, verify_code, spend_step,
  only_digits, match_from, above, list_eq, decimal, truncated, byte_at, big_endian,
}
use nodary.Identity.Totp.Spent.{Near, Beyond, spent, verify_totp-accepts}

-- A stand-in for HMAC-SHA-1: 20 bytes that depend on the message.
abbrev pub mac : List ℕ → List ℕ → List ℕ
mac seed message = message ++ (message ++ (1 ∷ 2 ∷ 3 ∷ 4 ∷ []))

abbrev account : Account
account = record { active = true; seed = some (7 ∷ []); last_step = some 100 }

-- 000 101, typed in two groups, in step 101.
abbrev pub typed : List ℕ
typed = 48 ∷ 48 ∷ 48 ∷ 32 ∷ 49 ∷ 48 ∷ 49 ∷ []

pub late : skew ≤ step_at 3040
unfolding step_at
late = omega arith

pub later : skew ≤ step_at 3041
unfolding step_at
later = omega arith

verify_totp-accepts_example :
    ((seed : List ℕ) × (s : ℕ) × (verify_totp mac account 3040 typed
        ≡ (record account { last_step = some s }, none))
      × (account.active ≡ true)
      × (account.seed ≡ some seed)
      × Near 3040 s
      × Beyond account.last_step s
      × (normalize_code typed ≡ some (code_at mac seed s)))
    ⊎ ((r : Refused) × (verify_totp mac account 3040 typed ≡ (account, some r))
        × ((seed : List ℕ) (s : ℕ)
            → account.active ≡ true
            → account.seed ≡ some seed
            → Near 3040 s
            → Beyond account.last_step s
            → normalize_code typed ≢ some (code_at mac seed s)))
verify_totp-accepts_example = verify_totp-accepts mac account 3040 typed late

-- The code is accepted in its step, and not a second time.
spends_once : spent mac account ((3040, typed) ∷ (3041, typed) ∷ []) ≡ 101 ∷ []
unfolding verify_totp verify_code spend_step normalize_code only_digits match_from above list_eq
    code_at decimal truncated byte_at big_endian step_at
spends_once = refl
