-- ===== src/Identity/Totp/Spent.antt =====
-- What `VerifyTOTP` of internal/identity/totp.go accepts, and which steps a sequence of attempts
-- spends.
use nodary.Prelude.{
  ℕ, zero, suc, ◌+◌, ◌-◌, ◌*◌, ◌≤◌, ◌<◌, ◌≡◌, ◌≢◌, refl, sym, ap, ◌∙◌, subst, true, ◌&&◌, Option,
  none, some, List, [], ◌∷◌, ◌==◌, if◌then◌else◌, ◌⊎◌, inl, inr, All, Bool-cases, Option-cases,
  arith,
}
use nodary.Identity.Totp.{
  skew, step_at, list_eq, normalize_code, above, Account, Refused, code_at, match_from, verify_code,
  spend_step, verify_totp,
}

list_eq_sound : (xs ys : List ℕ) → list_eq xs ys ≡ true → xs ≡ ys
unfolding list_eq
list_eq_sound [] [] e = refl
list_eq_sound [] (y ∷ ys) e = absurd (ground (arith, e))
list_eq_sound (x ∷ xs) [] e = absurd (ground (arith, e))
list_eq_sound (x ∷ xs) (y ∷ ys) e =
    let h : x ≡ y = ground (arith, e) in
    let k : list_eq xs ys ≡ true = ground (arith, e) in cc (h, list_eq_sound xs ys k)

list_eq_refl : (xs : List ℕ) → list_eq xs xs ≡ true
unfolding list_eq
list_eq_refl [] = refl
list_eq_refl (x ∷ xs) = ground (arith, list_eq_refl xs)

-- A step that is not spent: beyond the last one, when there is one.
abbrev pub Beyond : Option ℕ → ℕ → Type 0
Beyond none s = Unit
Beyond (some last) s = last < s

above-Beyond : (floor : Option ℕ) (s : ℕ) → above floor s ≡ true → Beyond floor s
unfolding above
above-Beyond none s e = tt
above-Beyond (some last) s e = ground (arith, e)

Beyond-above : (floor : Option ℕ) (s : ℕ) → Beyond floor s → above floor s ≡ true
unfolding above
Beyond-above none s h = refl
Beyond-above (some last) s h = ground (arith, h)

-- The steps within the skew of a moment.
abbrev pub Near : ℕ → ℕ → Type 0
Near now s = (step_at now ≤ s + skew) × (s ≤ step_at now + skew)

-- Each step is above the one before it.
abbrev pub Ascends : Option ℕ → List ℕ → Type 0
Ascends floor [] = Unit
Ascends floor (s ∷ steps) = Beyond floor s × Ascends (some s) steps

-- The step that an answer spends, before the steps of the later attempts.
abbrev pub add_spent : Account × Option Refused → List ℕ → List ℕ
add_spent (a, some r) steps = steps
add_spent (a, none) steps = elim a.last_step [ none ↦ steps | some s ↦ (s ∷ steps) ]

module _ (hmac : List ℕ → List ℕ → List ℕ) where
  -- A step that the code stands for, not spent, within the skew of the moment.
  abbrev pub Accepts : List ℕ → List ℕ → Option ℕ → ℕ → ℕ → ℕ → Type 0
  Accepts seed ds floor lo hi s =
      (lo ≤ s) × (s < hi) × (above floor s ≡ true) × (code_at hmac seed s ≡ ds)

  match_from-Accepts :
      (seed ds : List ℕ) (floor : Option ℕ) (n step : ℕ) (found : Option ℕ) (s : ℕ)
      → match_from hmac seed ds floor n step found ≡ some s
      → (found ≡ some s) ⊎ Accepts seed ds floor step (step + n) s
  unfolding match_from
  match_from-Accepts seed ds floor zero step found s e = inl e
  match_from-Accepts seed ds floor (suc n) step found s e =
      elim (Bool-cases (above floor step && list_eq (code_at hmac seed step) ds)) [
        | inr h ↦ elim (match_from-Accepts seed ds floor n (step + 1) found s (rw h at e)) [
          | inl q ↦ inl q
          | inr (a, b, c, d) ↦ inr (omega (arith, a), omega (arith, b), c, d)
        ]
        | inl h ↦ elim (match_from-Accepts seed ds floor n (step + 1) (some step) s (rw h at e)) [
          | inl q ↦
              let k : step ≡ s = cc q in
              let free : above floor step ≡ true = ground (arith, h) in
              let same : list_eq (code_at hmac seed step) ds ≡ true = ground (arith, h) in
              inr (
                omega (arith, k),
                omega (arith, k),
                subst (λ (x : ℕ). above floor x ≡ true) k free,
                subst (λ (x : ℕ). code_at hmac seed x ≡ ds) k
                    (list_eq_sound (code_at hmac seed step) ds same),
              )
          | inr (a, b, c, d) ↦ inr (omega (arith, a), omega (arith, b), c, d)
        ]
      ]

  match_from-kept :
      (seed ds : List ℕ) (floor : Option ℕ) (n step f : ℕ)
      → match_from hmac seed ds floor n step (some f) ≢ none
  unfolding match_from
  match_from-kept seed ds floor zero step f e = absurd (cc e)
  match_from-kept seed ds floor (suc n) step f e =
      elim (Bool-cases (above floor step && list_eq (code_at hmac seed step) ds)) [
        | inl h ↦ match_from-kept seed ds floor n (step + 1) step (rw h at e)
        | inr h ↦ match_from-kept seed ds floor n (step + 1) f (rw h at e)
      ]

  match_from-finds :
      (seed ds : List ℕ) (floor : Option ℕ) (n step s : ℕ) (found : Option ℕ)
      → Accepts seed ds floor step (step + n) s
      → match_from hmac seed ds floor n step found ≢ none
  unfolding match_from
  match_from-finds seed ds floor zero step s found (a, b, c, d) e = absurd (omega (arith, a, b))
  match_from-finds seed ds floor (suc n) step s found (a, b, c, d) e =
      elim (Bool-cases (step == s)) [
        | inl k ↦
            let q : s ≡ step = ground (arith, k) in
            let h : (above floor step && list_eq (code_at hmac seed step) ds) ≡ true = ground (
              arith,
              subst (λ (x : ℕ). above floor x ≡ true) q c,
              subst (λ (x : List ℕ). list_eq (code_at hmac seed step) x ≡ true)
                  (sym (ap (λ x. code_at hmac seed x) q) ∙ d)
                  (list_eq_refl (code_at hmac seed step)),
            ) in
            match_from-kept seed ds floor n (step + 1) step (rw h at e)
        | inr k ↦
            let l : step + 1 ≤ s = ground (arith, k, a) in
            match_from-finds seed ds floor n (step + 1) s
              (if above floor step && list_eq (code_at hmac seed step) ds then some step else found)
              (l, omega (arith, b), c, d) e
      ]

  -- What `verify_code` finds, or that there is nothing to find.
  abbrev pub Found : List ℕ → List ℕ → ℕ → Option ℕ → ℕ → Type 0
  Found seed code now floor s =
      Near now s × (above floor s ≡ true) × (normalize_code code ≡ some (code_at hmac seed s))

  pub verify_code-cases :
      (seed code : List ℕ) (now : ℕ) (floor : Option ℕ)
      → skew ≤ step_at now
      → ((s : ℕ) × (verify_code hmac seed code now floor ≡ some s) × Found seed code now floor s)
        ⊎ ((verify_code hmac seed code now floor ≡ none)
            × ((s : ℕ) → Found seed code now floor s → ⊥))
  unfolding verify_code
  verify_code-cases seed code now floor h = elim (Option-cases (normalize_code code)) [
    | inl e ↦ inr (rw (verify_code, e), λ s f. absurd (cc (f.2, e)))
    | inr (ds, e) ↦
        elim (Option-cases
          (match_from hmac seed ds floor (2 * skew + 1) (step_at now - skew) none)) [
            | inl q ↦ inr (
              rw (verify_code, e, q),
              λ s f.
                  let d : code_at hmac seed s ≡ ds = cc (f.2, e) in
                  match_from-finds seed ds floor (2 * skew + 1) (step_at now - skew) s none
                    (omega (arith, h, f.0.1, f.0.0), omega (arith, h, f.0.1, f.0.0), f.1, d) q,
            )
            | inr (s, q) ↦
                elim (match_from-Accepts seed ds floor (2 * skew + 1) (step_at now - skew) none s
                  q) [
                    | inl z ↦ absurd (cc z)
                    | inr (a, b, c, d) ↦ inl (
                      s,
                      rw (verify_code, e, q),
                      ((omega (arith, h, a, b), omega (arith, h, a, b)), c, e ∙ ap some (sym d)),
                    )
                  ]
          ]
  ]

  -- A code is accepted exactly when the account is active and enrolled and the digits typed are
  -- the code of a step within the skew of the moment that is above every step spent; what is
  -- written is such a step, and nothing is written where the code is refused.
  pub verify_totp-accepts :
      (a : Account) (now : ℕ) (code : List ℕ)
      → skew ≤ step_at now
      → ((seed : List ℕ) × (s : ℕ) × (verify_totp hmac a now code
            ≡ (record a { last_step = some s }, none))
          × (a.active ≡ true)
          × (a.seed ≡ some seed)
          × Near now s
          × Beyond a.last_step s
          × (normalize_code code ≡ some (code_at hmac seed s)))
        ⊎ ((r : Refused) × (verify_totp hmac a now code ≡ (a, some r))
            × ((seed : List ℕ) (s : ℕ)
                → a.active ≡ true
                → a.seed ≡ some seed
                → Near now s
                → Beyond a.last_step s
                → normalize_code code ≢ some (code_at hmac seed s)))
  unfolding verify_totp spend_step
  verify_totp-accepts a now code h = elim (Bool-cases a.active) [
    | inr x ↦ inr (Refused.not_active, simp x, λ seed s y. absurd (cc (x, y)))
    | inl x ↦ elim (Option-cases a.seed) [
      | inl y ↦ inr (Refused.not_enrolled, simp (x, y), λ seed s _ z. absurd (cc (y, z)))
      | inr (seed, y) ↦ elim (verify_code-cases seed code now a.last_step h) [
        | inl (s, q, (n, b, c)) ↦
            inl (seed, s, simp (x, y, q, b), x, y, n, above-Beyond a.last_step s b, c)
        | inr (q, none_found) ↦ inr (
          Refused.bad_code,
          simp (x, y, q),
          λ seed' s _ z n b c.
              let same : seed' ≡ seed = cc (y, z) in
              none_found s (
                n,
                Beyond-above a.last_step s b,
                c ∙ ap (λ (k : List ℕ). some (code_at hmac k s)) same,
              ),
        )
      ]
    ]
  ]

  -- The steps that a sequence of attempts spends, in order.
  abbrev pub spent : Account → List (ℕ × List ℕ) → List ℕ
  spent a [] = []
  spent a ((now, code) ∷ attempts) =
      add_spent (verify_totp hmac a now code) (spent (verify_totp hmac a now code).0 attempts)

  -- However an account's codes are tried, the steps spent ascend strictly: no step is spent
  -- twice, and none after a later one.
  pub verify_totp-Ascends :
      (a : Account) (attempts : List (ℕ × List ℕ))
      → All (λ t. skew ≤ step_at t.0) attempts
      → Ascends a.last_step (spent a attempts)
  verify_totp-Ascends a [] _ = tt
  verify_totp-Ascends a ((now, code) ∷ attempts) (h, hs) = elim (verify_totp-accepts a now code h) [
    | inl (seed, s, e, _, _, _, b, _) ↦
        subst
          (λ (r : Account × Option Refused). Ascends a.last_step (add_spent r (spent r.0 attempts)))
          (sym e) (b, verify_totp-Ascends (record a { last_step = some s }) attempts hs)
    | inr (r, e, _) ↦
        subst
          (λ (r : Account × Option Refused). Ascends a.last_step (add_spent r (spent r.0 attempts)))
          (sym e) (verify_totp-Ascends a attempts hs)
  ]
