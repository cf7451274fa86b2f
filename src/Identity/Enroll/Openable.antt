-- ===== src/Identity/Enroll/Openable.antt =====
-- The keys that seal the seeds of internal/identity/totp.go, and the one that keybind.go records.
use nodary.Prelude.{ℕ, ◌≡◌, String, true, Option, none, some, List}
use nodary.Identity.Enroll.{Sealing, Stored, Vault, enroll, verify}

module _ {K C : Type 0} (z : Sealing K C) (hmac : List ℕ → List ℕ → List ℕ) where
  -- Every seed was sealed under the key that is recorded.
  pub IsSealed : Vault C → Type 0
  IsSealed v =
      (id : String) (u : Stored C) (c : C)
      → v.users id ≡ some u
      → u.sealed ≡ some c
      → (j : K) × (seed : List ℕ) × (z.seal j id seed ≡ some c) × (v.bound ≡ some (z.key_id j))

  -- A keyring with no retired key.
  abbrev pub Single : K → Type 0
  Single k = (r : String) → z.knows k r ≡ true → r ≡ z.key_id k

  -- What the rows and the key may go through; `other` is whatever seals nothing.
  pub data Step : Vault C → Vault C → Type 0 where
    enrolled :
        (v : Vault C) (role name : String) (k : K) (now : ℕ) (seed code : List ℕ)
        → Single k
        → Step v (enroll z hmac role k now name seed code v).0
    verified :
        (v : Vault C) (k : K) (now : ℕ) (name : String) (code : List ℕ)
        → Step v (verify z hmac k now name code v).0
    other :
        (v : Vault C) (names : String → Option String) (rows : String → Option (Stored C))
        → ((id : String) (u : Stored C) (c : C)
            → rows id ≡ some u
            → u.sealed ≡ some c
            → (w : Stored C) × (v.users id ≡ some w) × (w.sealed ≡ some c))
        → Step v (record v { user_of = names; users = rows })

  -- From a database without a seed.
  pub data Reach : Vault C → Type 0 where
    start :
        (v : Vault C)
        → ((id : String) (u : Stored C) → v.users id ≡ some u → u.sealed ≡ none)
        → Reach v
    next : {v w : Vault C} → Reach v → Step v w → Reach w
