-- ===== src/Identity/Enroll.antt =====
-- `Enroll` and `VerifyTOTP` of internal/identity/totp.go on a table of users, and the binding of a database to its
-- key (keybind.go). What internal/secret promises of a keyring are the fields of `Sealing`. The row of the
-- installation and what is noted for the record are left out.
pub mod Confirmed
pub mod Openable
mod Tests
use nodary.Prelude.{
  ℕ, ◌==◌, ◌≡◌, String, Bool, true, false, ◌||◌, Option, none, some, List, if◌then◌else◌, length,
  str_eq,
}
use nodary.Identity.Role.{Verdict, authorize}
use nodary.Identity.Totp.{Account, Refused, verify_code, verify_totp}

-- `secret.Key`: the id of the primary key, the ids it knows, `Seal` and `Open` under the label of a user's id.
-- `none` is an error.
pub record Sealing (K C : Type 0) : Type 0 where
  pub key_id : K → String
  pub knows : K → String → Bool
  pub seal : K → String → List ℕ → Option C
  pub unseal : K → String → C → Option (List ℕ)
  pub knows_own : (k : K) → knows k (key_id k) ≡ true
  pub unseal-seal :
      (j k : K) (id : String) (seed : List ℕ) (c : C)
      → seal j id seed ≡ some c
      → knows k (key_id j) ≡ true
      → unseal k id c ≡ some seed

-- A user's row, as far as codes go.
pub record Stored (C : Type 0) : Type 0 where
  pub active : Bool
  pub sealed : Option C
  pub last_step : Option ℕ

-- `bound` is the recorded id of a key, `user_of` the id of the user that has a name, and `users` the rows.
pub record Vault (C : Type 0) : Type 0 where
  pub bound : Option String
  pub user_of : String → Option String
  pub users : String → Option (Stored C)

-- Why an enrollment or a verification ends with an error.
pub data Hindered : Type 0 where
  denied bad_seed not_found inactive not_confirmed wrong_key not_sealed not_opened : Hindered
  refused : Refused → Hindered

abbrev pub seed_bytes : ℕ
seed_bytes = 20

unfoldable pub permitted : Verdict → Bool
permitted Verdict.allowed = true
permitted (Verdict.requires r) = false
permitted Verdict.unknown_permission = false

-- `Get`: the id and the row of the user that has the name.
unfoldable pub get : {C : Type 0} → Vault C → String → Option (String × Stored C)
get v name = elim (v.user_of name) [
  | none ↦ none
  | some id ↦ elim (v.users id) [ none ↦ none | some u ↦ some (id, u) ]
]

unfoldable pub put_user : {C : Type 0} → Vault C → String → Stored C → Vault C
put_user v id u = record v { users = λ x. if str_eq x id then some u else v.users x }

-- What `VerifyTOTP` answers is written back.
unfoldable pub write_back :
    {C : Type 0}
    → String
    → Stored C
    → Vault C
    → Account × Option Refused
    → Vault C × Option Hindered
write_back id u v (a, none) = (put_user v id (record u { last_step = a.last_step }), none)
write_back id u v (a, some r) = (v, some (Hindered.refused r))

module _ {K C : Type 0} (z : Sealing K C) where
  unfoldable pub check_key : K → Option String → Bool
  check_key k none = true
  check_key k (some r) = str_eq r (z.key_id k) || z.knows k r

  -- `BindKey`: the id that is recorded afterwards, `none` for a mismatch.
  unfoldable pub bind_key : K → Option String → Option String
  bind_key k none = some (z.key_id k)
  bind_key k (some r) = if check_key k (some r) then some r else none

  -- From the key on.
  unfoldable pub store_seed :
      K → List ℕ → ℕ → String → Stored C → Vault C → Vault C × Option Hindered
  store_seed k seed step id u v = elim (bind_key k v.bound) [
    | none ↦ (v, some Hindered.wrong_key)
    | some r ↦ elim (z.seal k id seed) [
      | none ↦ (v, some Hindered.not_sealed)
      | some c ↦ (
        put_user (record v { bound = some r }) id
            (record u { sealed = some c; last_step = some step }),
        none,
      )
    ]
  ]

module _ {K C : Type 0} (z : Sealing K C) (hmac : List ℕ → List ℕ → List ℕ) where
  -- From the user on.
  unfoldable pub enroll_user :
      K → ℕ → List ℕ → List ℕ → Option (String × Stored C) → Vault C → Vault C × Option Hindered
  enroll_user k now seed code none v = (v, some Hindered.not_found)
  enroll_user k now seed code (some (id, u)) v =
      if u.active
      then elim (verify_code hmac seed code now none) [
        | none ↦ (v, some Hindered.not_confirmed)
        | some step ↦ store_seed z k seed step id u v
      ]
      else (v, some Hindered.inactive)

  unfoldable pub enroll :
      String → K → ℕ → String → List ℕ → List ℕ → Vault C → Vault C × Option Hindered
  enroll role k now name seed code v =
      if permitted (authorize role "user.manage")
      then if length seed == seed_bytes
        then enroll_user k now seed code (get v name) v
        else (v, some Hindered.bad_seed)
      else (v, some Hindered.denied)

  unfoldable pub verify_user :
      K → ℕ → List ℕ → Option (String × Stored C) → Vault C → Vault C × Option Hindered
  verify_user k now code none v = (v, some Hindered.not_found)
  verify_user k now code (some (id, u)) v =
      if u.active
      then elim u.sealed [
        | none ↦ (v, some (Hindered.refused Refused.not_enrolled))
        | some c ↦ elim (z.unseal k id c) [
          | none ↦ (v, some Hindered.not_opened)
          | some seed ↦ write_back id u v (
              verify_totp hmac (record { active = true; seed = some seed; last_step = u.last_step })
                now code)
        ]
      ]
      else (v, some (Hindered.refused Refused.not_active))

  -- `VerifyTOTP`.
  unfoldable pub verify : K → ℕ → String → List ℕ → Vault C → Vault C × Option Hindered
  verify k now name code v = verify_user k now code (get v name) v
