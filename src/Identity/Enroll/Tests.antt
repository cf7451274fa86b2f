-- ===== src/Identity/Enroll/Tests.antt =====
-- A user who enrolls, with keyrings of one key.
use nodary.Prelude.{
  ℕ, ◌≡◌, refl, String, true, ◌&&◌, Option, none, some, List, [], ◌∷◌, if◌then◌else◌, str_eq, arith,
  eq_iff,
}
use nodary.Identity.Role.{admin, can, authorize, lookup, rank, index_of}
use nodary.Identity.Totp.{
  step_at, verify_code, normalize_code, only_digits, match_from, above, list_eq, code_at, decimal,
  truncated, byte_at, big_endian,
}
use nodary.Identity.Tests.{mac, typed, late, later}
use nodary.Identity.Enroll.{
  Sealing, Stored, Vault, get, put_user, bind_key, check_key, store_seed, enroll_user, enroll,
  permitted,
}
use nodary.Identity.Enroll.Confirmed.{Answers, enroll-Answers}

abbrev Sealed : Type 0
Sealed = String × String × List ℕ

abbrev open_with : String → String → Sealed → Option (List ℕ)
open_with k id (j, label, seed) = if str_eq j k && str_eq label id then some seed else none

same_self : (x : String) → str_eq x x ≡ true
same_self x = ground (arith, eq_iff x x)

open_sealed :
    (j k id : String) (seed : List ℕ) (c : Sealed)
    → ◌≡◌ {A = Option Sealed} (some (j, id, seed)) (some c)
    → str_eq j k ≡ true
    → open_with k id c ≡ some seed
open_sealed j k id seed (a, b, s) e q =
    let one : j ≡ a = cc e in
    let two : id ≡ b = cc e in
    let three : seed ≡ s = cc e in rw (← one, ← two, ← three, q, same_self id)

abbrev sealing : Sealing String Sealed
sealing = record {
  key_id = λ k. k;
  knows = λ k r. str_eq r k;
  seal = λ k id seed. some (k, id, seed);
  unseal = open_with;
  knows_own = same_self;
  unseal-seal = open_sealed;
}

abbrev fresh : Vault Sealed
fresh = record {
  bound = none;
  user_of = λ name. if str_eq name "ada" then some "usr_1" else none;
  users = λ id.
      if str_eq id "usr_1"
      then some (record { active = true; sealed = none; last_step = none })
      else none;
}

abbrev seed : List ℕ
seed = 1 ∷ 2 ∷ 3 ∷ 4 ∷ 5 ∷ 6 ∷ 7 ∷ 8 ∷ 9 ∷ 10 ∷ 11 ∷ 12 ∷ 13 ∷ 14 ∷ 15 ∷ 16 ∷ 17 ∷ 18 ∷ 19 ∷ 20 ∷ []

abbrev tried : List (ℕ × List ℕ)
tried = (3041, typed) ∷ []

enroll-Answers_example :
    Answers sealing mac tried admin "k1" 3040 "ada" seed typed fresh
      (enroll sealing mac admin "k1" 3040 "ada" seed typed fresh)
enroll-Answers_example =
    enroll-Answers sealing mac tried admin "k1" 3040 "ada" seed typed fresh (later, tt) late

is_enrolled : (enroll sealing mac admin "k1" 3040 "ada" seed typed fresh).1 ≡ none
unfolding enroll enroll_user store_seed permitted authorize can lookup rank index_of get verify_code
    normalize_code only_digits match_from above list_eq code_at decimal truncated byte_at bind_key
    check_key put_user big_endian step_at
is_enrolled = refl

abbrev ada : Stored Sealed
ada = record { active = true; sealed = some ("k1", "usr_1", seed); last_step = some 101 }
