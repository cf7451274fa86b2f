-- ===== src/Attest/Ceremonies.antt =====
-- `Require` and `Bind` of internal/attest/attest.go against what a profile demands.
use nodary.Prelude.{
  ◌≤◌, ◌<◌, ◌≡◌, ◌≢◌, sym, ap, ◌∙◌, String, true, false, ◌&&◌, Option, none, some, inl, inr, ◌↔◌,
  ltb, ◌==◌, str_eq, eq_iff, length, Bool-cases, Option-cases, arith,
}
use nodary.Attest.{Profile, Ceremony, needs_totp, require, Bound, bind}

-- What a profile demands of an act.
abbrev Meets : Profile → Ceremony → Type 0
Meets p c =
    (p.require_justification ≡ true → 0 < length c.justification)
    × (0 < length c.justification → p.min_justification_length ≤ length c.justification)
    × (p.require_totp ≡ true → c.unattended ≡ false → c.local ≡ false → c.totp_code ≢ "")

-- `require` lets an act go on exactly when the profile's demands are met: a justification where one
-- is required, none that is shorter than the floor, and a code where one is required of a person.
require_iff : (p : Profile) (c : Ceremony) → (require p c ≡ none) ↔ Meets p c
unfolding require needs_totp
require_iff p c = elim (Bool-cases (str_eq c.totp_code "")) [
  | inl e ↦
      let empty : c.totp_code ≡ "" = ground (arith, e, eq_iff c.totp_code "") in
      (
        (λ h. (
          ground (arith, h, e),
          ground (arith, h, e),
          λ t u l. absurd (ground (arith, h, e, t, u, l)),
        )),
        (λ m. passes m (no_code (m.2) empty)),
      )
  | inr e ↦
      let nonempty : c.totp_code ≢ "" = λ q. absurd (ground (arith, e, q, eq_iff c.totp_code "")) in
      (
        (λ h. (ground (arith, h, e), ground (arith, h, e), λ t u l. nonempty)),
        (λ m. passes m (ground (arith, e))),
      )
]
  where
    passes : Meets p c → (needs_totp p c && str_eq c.totp_code "") ≡ false → require p c ≡ none
    passes (a, b, _) k =
        let missing : (p.require_justification && (length c.justification == 0)) ≡ false =
          ground (arith, a) in
        let short : (ltb 0 (length c.justification)
              && ltb (length c.justification) p.min_justification_length)
            ≡ false =
          ground (arith, b) in
        ground (arith, missing, short, k)

    no_code :
        (p.require_totp ≡ true → c.unattended ≡ false → c.local ≡ false → c.totp_code ≢ "")
        → c.totp_code ≡ ""
        → (needs_totp p c && str_eq c.totp_code "") ≡ false
    no_code m q = elim (Bool-cases (needs_totp p c)) [
      | inl k ↦ absurd (m (ground (arith, k)) (ground (arith, k)) (ground (arith, k)) q)
      | inr k ↦ ground (arith, k)
    ]

module _ {State Change : Type 0} (hash : Change → Option String) where
  bound-render :
      (state : State) (render : State → Option Change) (change : Change) (approved : String)
      → bind hash state render approved ≡ Bound.bound change
      → (render state ≡ some change) × (hash change ≡ some approved)
  unfolding bind
  bound-render state render change approved b = elim (Option-cases (render state)) [
    | inl q ↦ absurd (cc (rw (bind, q) at b))
    | inr (c, q) ↦ elim (Option-cases (hash c)) [
      | inl k ↦ absurd (cc (rw (bind, q, k) at b))
      | inr (now, k) ↦ elim (Bool-cases (str_eq now approved)) [
        | inr z ↦ absurd (cc (rw (bind, q, k, z) at b))
        | inl z ↦
            let same_change : c ≡ change = cc (rw (bind, q, k, z) at b) in
            let same_hash : now ≡ approved = ground (arith, z, eq_iff now approved) in
            (q ∙ ap some same_change, ap hash (sym same_change) ∙ k ∙ ap some same_hash)
      ]
    ]
  ]

  -- Whatever the state was at the preview and is now, a change that is bound is what the render
  -- gives now, and it has the hash of the change that was previewed and approved.
  bind-approved :
      (state state' : State) (render : State → Option Change) (previewed change : Change)
      (approved : String)
      → render state ≡ some previewed
      → hash previewed ≡ some approved
      → bind hash state' render approved ≡ Bound.bound change
      → (render state' ≡ some change) × (hash change ≡ hash previewed)
  bind-approved state state' render previewed change approved e h b =
      let (now, same) = bound-render state' render change approved b in (now, same ∙ sym h)

  -- A change that still renders as it did when its hash was approved is applied.
  bind-unchanged :
      (state : State) (render : State → Option Change) (change : Change) (approved : String)
      → render state ≡ some change
      → hash change ≡ some approved
      → bind hash state render approved ≡ Bound.bound change
  unfolding bind
  bind-unchanged state render change approved e h =
      let z : str_eq approved approved ≡ true = ground (arith, eq_iff approved approved) in
      rw (bind, e, h, z)

  -- A change is bound exactly when it is what the render gives now and has the hash that was approved,
  -- whatever the state was at the preview.
  pub bind_iff :
      (state : State) (render : State → Option Change) (change : Change) (approved : String)
      → (bind hash state render approved ≡ Bound.bound change)
        ↔ ((render state ≡ some change) × (hash change ≡ some approved))
  bind_iff state render change approved = (
    bound-render state render change approved,
    λ h. bind-unchanged state render change approved h.0 h.1,
  )
