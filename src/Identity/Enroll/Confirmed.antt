-- ===== src/Identity/Enroll/Confirmed.antt =====
-- What `Enroll` of internal/identity/totp.go stores, and when.
use nodary.Prelude.{
  ℕ, ◌==◌, ◌≡◌, ◌≢◌, ◌≤◌, refl, String, true, Option, none, some, List, length, ◌⊎◌, inl, inr,
  arith, All, Bool-cases, Option-cases,
}
use nodary.Identity.Role.{authorize, can}
use nodary.Identity.Totp.{above, skew, step_at, code_at, normalize_code}
use nodary.Identity.Totp.Spent.{Near, Ascends, spent, verify_code-cases, verify_totp-Ascends}
use nodary.Identity.Enroll.{
  Sealing, Stored, Vault, Hindered, get, put_user, bind_key, store_seed, enroll_user, enroll,
  seed_bytes, permitted,
}

permitted-can : (role p : String) → permitted (authorize role p) ≡ true → can role p ≡ true
unfolding permitted authorize
permitted-can role p e = ground (arith, e)

module _ {K C : Type 0} (z : Sealing K C) (hmac : List ℕ → List ℕ → List ℕ)
    (attempts : List (ℕ × List ℕ)) where
  -- The enrollment of `u`, whose confirming code is of `step`.
  pub record Enrolled (role : String) (k : K) (now : ℕ) (name : String) (seed code : List ℕ)
      (v w : Vault C) (id : String) (u : Stored C) (c : C) (step : ℕ) (key : String) : Type 0 where
    pub may : can role "user.manage" ≡ true
    pub found : get v name ≡ some (id, u)
    pub active : u.active ≡ true
    pub size : length seed ≡ seed_bytes
    pub near : Near now step
    pub confirmed : normalize_code code ≡ some (code_at hmac seed step)
    pub bound : bind_key z k v.bound ≡ some key
    pub sealed : z.seal k id seed ≡ some c
    pub stored :
        w
        ≡ put_user
            (record v { bound = some key })
            id
            (record u { sealed = some c; last_step = some step })
    pub later :
        Ascends
          (some step)
          (spent hmac (record { active = true; seed = some seed; last_step = some step }) attempts)

  -- What an enrollment does: all of it, or nothing.
  abbrev pub Answers :
      String → K → ℕ → String → List ℕ → List ℕ → Vault C → Vault C × Option Hindered → Type 0
  Answers role k now name seed code v x =
      ((id : String) × (u : Stored C) × (c : C) × (step : ℕ) × (key : String) × (x.1 ≡ none)
        × Enrolled role k now name seed code v x.0 id u c step key)
      ⊎ ((e : Hindered) × (x ≡ (v, some e))
          × ((e ≢ Hindered.not_confirmed)
              ⊎ ((s : ℕ) → Near now s → normalize_code code ≢ some (code_at hmac seed s))))

  hindered :
      (role : String) (k : K) (now : ℕ) (name : String) (seed code : List ℕ) (v : Vault C)
      (e : Hindered)
      → e ≢ Hindered.not_confirmed
      → Answers role k now name seed code v (v, some e)
  hindered role k now name seed code v e d = inr (e, refl, inl d)

  store_seed-Answers :
      (role : String) (k : K) (now : ℕ) (name : String) (seed code : List ℕ) (v : Vault C)
      (id : String) (u : Stored C) (step : ℕ)
      → All (λ t. skew ≤ step_at t.0) attempts
      → can role "user.manage" ≡ true
      → get v name ≡ some (id, u)
      → u.active ≡ true
      → length seed ≡ seed_bytes
      → Near now step
      → normalize_code code ≡ some (code_at hmac seed step)
      → Answers role k now name seed code v (store_seed z k seed step id u v)
  unfolding store_seed
  store_seed-Answers role k now name seed code v id u step h m g a l n c =
      elim (Option-cases (bind_key z k v.bound)) [
        | inl e ↦
            rw (store_seed, e) (hindered role k now name seed code v Hindered.wrong_key (λ q. cc q))
        | inr (key, e) ↦ elim (Option-cases (z.seal k id seed)) [
          | inl q ↦
              rw (store_seed, e, q)
                (hindered role k now name seed code v Hindered.not_sealed (λ q. cc q))
          | inr (x, q) ↦
              rw (store_seed, e, q)
                (inl (
                  id,
                  u,
                  x,
                  step,
                  key,
                  refl,
                  record {
                    may = m;
                    found = g;
                    active = a;
                    size = l;
                    near = n;
                    confirmed = c;
                    bound = e;
                    sealed = q;
                    stored = refl;
                    later =
                        verify_totp-Ascends hmac
                          (record { active = true; seed = some seed; last_step = some step })
                          attempts h;
                  },
                ))
        ]
      ]

  enroll_user-Answers :
      (role : String) (k : K) (now : ℕ) (name : String) (seed code : List ℕ) (v : Vault C)
      (found : Option (String × Stored C))
      → All (λ t. skew ≤ step_at t.0) attempts
      → skew ≤ step_at now
      → can role "user.manage" ≡ true
      → get v name ≡ found
      → length seed ≡ seed_bytes
      → Answers role k now name seed code v (enroll_user z hmac k now seed code found v)
  unfolding enroll_user above
  enroll_user-Answers role k now name seed code v none t h m g l =
      hindered role k now name seed code v Hindered.not_found (λ q. cc q)
  enroll_user-Answers role k now name seed code v (some (id, u)) t h m g l =
      elim (Bool-cases u.active) [
        | inr e ↦
            rw (enroll_user, e) (hindered role k now name seed code v Hindered.inactive (λ q. cc q))
        | inl e ↦ elim (verify_code-cases hmac seed code now none h) [
          | inl (step, q, (n, b, c)) ↦
              rw (enroll_user, e, q)
                (store_seed-Answers role k now name seed code v id u step t m g e l n c)
          | inr (q, nothing_found) ↦
              rw (enroll_user, e, q)
                (inr (Hindered.not_confirmed, refl, inr (λ s n c. nothing_found s (n, refl, c))))
        ]
      ]

  -- An enrollment either leaves everything as it was, and is told to be unconfirmed only if the code
  -- typed is that of no step within the skew of the moment; or the role may manage users, the user is found
  -- and active, the seed has 20 bytes and the code is its code of such a step, the seed is
  -- stored as it is sealed and the recorded key is as the binding leaves it, and whatever codes are tried
  -- afterwards, the steps they spend ascend strictly from that step.
  pub enroll-Answers :
      (role : String) (k : K) (now : ℕ) (name : String) (seed code : List ℕ) (v : Vault C)
      → All (λ t. skew ≤ step_at t.0) attempts
      → skew ≤ step_at now
      → Answers role k now name seed code v (enroll z hmac role k now name seed code v)
  unfolding enroll
  enroll-Answers role k now name seed code v t h =
      elim (Bool-cases (permitted (authorize role "user.manage"))) [
        | inr e ↦ rw (enroll, e) (hindered role k now name seed code v Hindered.denied (λ q. cc q))
        | inl e ↦
            let may = permitted-can role "user.manage" e in
            elim (Bool-cases (length seed == seed_bytes)) [
              | inr q ↦
                  rw (enroll, e, q)
                    (hindered role k now name seed code v Hindered.bad_seed (λ q. cc q))
              | inl q ↦
                  rw (enroll, e, q)
                    (enroll_user-Answers role k now name seed code v (get v name) t h may refl
                      (ground (arith, q)))
            ]
      ]
