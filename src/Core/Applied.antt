-- ===== src/Core/Applied.antt =====
-- What an act of internal/core/core.go that reaches the audited transaction has passed, and what it did.
pub mod Mutation
use nodary.Prelude.{
  ℕ, ◌/◌, String, Bool, false, ◌&&◌, not, Option, none, some, List, [], str_eq, ◌≡◌, refl, sym, ap,
  ◌∙◌, ◌⊎◌, inl, inr, arith, Bool-cases, Option-cases, eq_iff, subst,
}
use nodary.Attest as Attest
use nodary.Attest.{Profile, Ceremony, needs_totp, require, Bound, bind}
use nodary.Attest.Ceremonies.{bind_iff}
use nodary.Identity.Totp as Totp
use nodary.Identity.Totp.{Account, verify_totp}
use nodary.Audit.Record.{Record, codes}
use nodary.Audit.Log.{
  Ran, succeeded, partially, failed, Cause, mutation, Delivery, World, Environment, Acted, act,
}
use nodary.Audit.Log.Recorded.{Appends, Untouched, Refusal, Kept, act-recorded}
use nodary.Core.{
  Site, Principal, Request, Applying, applied, partly, faulty, Change, Note, Failure, no_key,
  bad_totp, unbound, fault, acted, ceremony_of, touch, notes_of, audit_request, bind_and_apply,
  mutate, act_approved, act_core,
}
use nodary.Core.Applied.Mutation.{Renders, Spends, Applies, mutate-succeeded, mutate-partially}

intended :
    (intent approved : String)
    → (not (str_eq intent "") && not (str_eq intent approved)) ≡ false
    → (intent ≡ "") ⊎ (intent ≡ approved)
intended intent approved i = elim (Bool-cases (str_eq intent "")) [
  | inl e ↦ inl (ground (arith, e, eq_iff intent ""))
  | inr e ↦ inr (ground (arith, e, i, eq_iff intent approved))
]

module _ {State Rendered Fault : Type 0} (hash : Rendered → Option String) where
  -- What the request has passed before anything is written.
  abbrev pub Passes :
      Profile → State → Request → Change State Rendered Fault → Rendered → String → Type 0
  Passes profile seen req c preview approved =
      Renders hash c approved seen preview
      × (req.dry_run ≡ false)
      × ((req.intent ≡ "") ⊎ (req.intent ≡ approved))
      × (require profile (ceremony_of req) ≡ none)

module _ (hmac : List ℕ → List ℕ → List ℕ) {State Rendered Fault : Type 0}
    (hash : Rendered → Option String) where
  module _ (valid : String → String) (digest : Record → Option String)
      (snapshot : List Note → Option (Cause (Failure Fault)) → String) where
    act_core-Passes :
        (d : Delivery) (env : Environment) (seen : State) (w : World (Site State))
        (profile : Profile) (has_key : Bool) (now : ℕ) (req : Request)
        (c : Change State Rendered Fault) (preview : Rendered) (approved : String)
        (a : Acted (Site State) (Failure Fault))
        → act_core hmac hash valid digest snapshot d env seen w profile has_key now req c
          ≡ acted preview approved a
        → Passes hash profile seen req c preview approved
          × (act valid digest snapshot [] d env w
                (audit_request req c approved)
                (mutate hmac hash profile has_key now req c approved)
              ≡ a)
    unfolding act_core act_approved
    act_core-Passes d env seen w profile has_key now req c preview approved a e =
        elim (Option-cases (c.render seen)) [
          | inl r ↦ absurd (cc (rw (act_core, r) at e))
          | inr (p, r) ↦ elim (Option-cases (hash p)) [
            | inl h ↦ absurd (cc (rw (act_core, r, h) at e))
            | inr (g, h) ↦ elim (Bool-cases req.dry_run) [
              | inl y ↦ absurd (cc (simp (y) at (rw (act_core, r, h, act_approved) at e)))
              | inr y ↦
                  elim (Bool-cases (not (str_eq req.intent "") && not (str_eq req.intent g))) [
                    | inl i ↦ absurd (cc (simp (y, i) at (rw (act_core, r, h, act_approved) at e)))
                    | inr i ↦ elim (Option-cases (require profile (ceremony_of req))) [
                      | inr (f, q) ↦
                          absurd (cc (simp (y, i, q) at (rw (act_core, r, h, act_approved) at e)))
                      | inl q ↦
                          let out = simp (y, i, q) at (rw (act_core, r, h, act_approved) at e) in
                          let same_preview : p ≡ preview = cc out in
                          let same_hash : g ≡ approved = cc out in
                          let ran : act valid digest snapshot [] d env w (audit_request req c g)
                                (mutate hmac hash profile has_key now req c g)
                              ≡ a =
                            cc out in
                          (
                            (
                              (
                                r ∙ ap some same_preview,
                                ap hash (sym same_preview) ∙ h ∙ ap some same_hash,
                              ),
                              y,
                              subst (λ (z : String). (req.intent ≡ "") ⊎ (req.intent ≡ z)) {x = g}
                                  {y = approved} same_hash (intended req.intent g i),
                              q,
                            ),
                            ap
                                  (λ (z : String).
                                    act valid digest snapshot [] d env w (audit_request req c z)
                                      (mutate hmac hash profile has_key now req c z))
                                  (sym same_hash)
                                ∙ ran,
                          )
                    ]
                  ]
            ]
          ]
        ]

    -- An act that reaches the audited transaction: its preview was rendered and hashed, it is no dry run,
    -- its intent is that hash or empty, and the profile's demands are met. Then the world is as it was
    -- and there is no record; or nothing but the record of a failure is written; or the change that is
    -- applied is what the state in the transaction renders, has the approved hash, the account's code is
    -- spent where one is needed, and the record stands beside it.
    pub act_core-acted :
        (d : Delivery) (env : Environment) (seen : State) (w : World (Site State))
        (profile : Profile) (has_key : Bool) (now : ℕ) (req : Request)
        (c : Change State Rendered Fault) (preview : Rendered) (approved : String)
        (a : Acted (Site State) (Failure Fault))
        → act_core hmac hash valid digest snapshot d env seen w profile has_key now req c
          ≡ acted preview approved a
        → Passes hash profile seen req c preview approved
          × (Untouched valid digest snapshot [] w a
              ⊎ Refusal valid digest snapshot [] env w (audit_request req c approved) a
              ⊎ (Applies hmac hash profile now req c approved w.app a.world.app
                    (applied a.world.app.state)
                  × Appends valid digest snapshot [] env w.db
                      (audit_request req c approved)
                      "success"
                      a
                  × (a.error ≡ none))
              ⊎ ((f : Fault) × Applies hmac hash profile now req c approved w.app a.world.app
                    (partly a.world.app.state f)
                  × Appends valid digest snapshot [] env w.db
                      (audit_request req c approved)
                      "partial"
                      a
                  × (a.error ≡ some (mutation (fault f)))))
    act_core-acted d env seen w profile has_key now req c preview approved a e =
        let (passes, ran) =
          act_core-Passes d env seen w profile has_key now req c preview approved a e in
        let fn = mutate hmac hash profile has_key now req c approved in
        let areq = audit_request req c approved in
        let kept =
          subst
            (λ (z : Acted (Site State) (Failure Fault)).
              Kept valid digest snapshot [] env w areq fn z)
            {x = act valid digest snapshot [] d env w areq fn} {y = a} ran
            (act-recorded valid digest snapshot [] d env w areq fn) in
        (
          passes,
          elim kept [
            | inl u ↦ inl u
            | inr (inl r) ↦ inr (inl r)
            | inr (inr (inl (noted, m, row, good))) ↦ inr (
                inr (
                  inl (
                    mutate-succeeded hmac hash profile has_key now req c approved w.app a.world.app
                        noted m,
                    row,
                    good,
                  )))
            | inr (inr (inr (noted, x, m, row, bad))) ↦
                let (f, q, done) =
                  mutate-partially hmac hash profile has_key now req c approved w.app a.world.app
                    noted x m in
                inr (
                  inr (
                    inr
                      (f, done, row, bad ∙ ap (λ (z : Failure Fault). some (Cause.mutation z)) q)))
          ],
        )
