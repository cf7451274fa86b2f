-- ===== src/Core/Applied/Mutation.antt =====
-- How the mutation of an act of internal/core/core.go comes out.
use nodary.Prelude.{
  ℕ, ◌/◌, String, Bool, false, Option, none, some, List, str_eq, ◌≡◌, refl, sym, ap, ◌∙◌, ◌⊎◌, inl,
  inr, Bool-cases, Option-cases, subst,
}
use nodary.Attest as Attest
use nodary.Attest.{Profile, Ceremony, needs_totp, require, Bound, bind}
use nodary.Attest.Ceremonies.{bind_iff}
use nodary.Identity.Totp as Totp
use nodary.Identity.Totp.{Account, verify_totp}
use nodary.Audit.Record.{codes}
use nodary.Audit.Log.{Ran, succeeded, partially, failed}
use nodary.Core.{
  Site, Principal, Request, Applying, applied, partly, faulty, Change, Note, Failure, no_key,
  bad_totp, unbound, fault, ceremony_of, touch, notes_of, bind_and_apply, mutate,
}

Bound-cases :
    {Change : Type 0} (b : Bound Change)
    → ((r : Attest.Refused) × (b ≡ Bound.refused r))
      ⊎ ((change : Change) × (b ≡ Bound.bound change))
Bound-cases (Bound.refused r) = inl (r, refl)
Bound-cases (Bound.bound change) = inr (change, refl)

Applying-cases :
    {State Fault : Type 0} (a : Applying State Fault)
    → ((u : State) × (a ≡ applied u))
      ⊎ ((u : State) × (f : Fault) × (a ≡ partly u f))
      ⊎ ((f : Fault) × (a ≡ faulty f))
Applying-cases (applied u) = inl (u, refl)
Applying-cases (partly u f) = inr (inl (u, f, refl))
Applying-cases (faulty f) = inr (inr (f, refl))

touch_kept :
    {State : Type 0} (p : Principal) (now : ℕ) (s : Site State)
    → ((touch p now s).account ≡ s.account) × ((touch p now s).state ≡ s.state)
unfolding touch
touch_kept p now s = elim (Bool-cases (str_eq p.token "")) [
  | inl e ↦ (rw (touch, e), rw (touch, e))
  | inr e ↦ (rw (touch, e), rw (touch, e))
]

module _ (hmac : List ℕ → List ℕ → List ℕ) {State : Type 0} where
  -- The account after an act: its code is spent where the profile asks for one, and it is as it was
  -- where not.
  abbrev pub Spends : Profile → ℕ → Request → Site State → Site State → Type 0
  Spends profile now req s t =
      ((needs_totp profile (ceremony_of req) ≡ false) × (t.account ≡ s.account))
      ⊎ (verify_totp hmac s.account (now / 1000000000) (codes req.totp_code) ≡ (t.account, none))

module _ {State Rendered Fault : Type 0} (hash : Rendered → Option String) where
  -- What the state gives has the approved hash.
  abbrev pub Renders : Change State Rendered Fault → String → State → Rendered → Type 0
  Renders c approved s change = (c.render s ≡ some change) × (hash change ≡ some approved)

module _ (hmac : List ℕ → List ℕ → List ℕ) {State Rendered Fault : Type 0}
    (hash : Rendered → Option String) where
  -- How the end of the mutation may come out.
  abbrev Ends :
      Change State Rendered Fault
      → String
      → Site State
      → Ran (Site State) (List Note) (Failure Fault)
      → Type 0
  Ends c approved s x =
      ((noted : List Note) × (f : Failure Fault) × (x ≡ failed noted f))
      ⊎ ((change : Rendered) × Renders hash c approved s.state change
          × (u : State) × (noted : List Note) × ((c.apply change s.state ≡ applied u)
                × (x ≡ succeeded (record s { state = u }) noted)
              ⊎ ((f : Fault) × (c.apply change s.state ≡ partly u f)
                  × (x ≡ partially (record s { state = u }) noted (fault f)))))

  bind_and_apply-Ends :
      (c : Change State Rendered Fault) (approved : String) (notes : List Note) (s : Site State)
      → Ends c approved s (bind_and_apply hmac hash c approved notes s)
  unfolding bind_and_apply
  bind_and_apply-Ends c approved notes s =
      elim (Bound-cases (bind hash s.state c.render approved)) [
        | inl (r, b) ↦ inl (notes, unbound r, rw (bind_and_apply, b))
        | inr (change, b) ↦
            let now = (bind_iff hash s.state c.render change approved).0 b in
            elim (Applying-cases (c.apply change s.state)) [
              | inl (u, k) ↦ inr (change, now, u, notes, inl (k, rw (bind_and_apply, b, k)))
              | inr (inl (u, f, k)) ↦
                  inr (change, now, u, notes, inr (f, k, rw (bind_and_apply, b, k)))
              | inr (inr (f, k)) ↦ inl (notes, fault f, rw (bind_and_apply, b, k))
            ]
      ]

  mutate-Ends :
      (profile : Profile) (has_key : Bool) (now : ℕ) (req : Request)
      (c : Change State Rendered Fault) (approved : String) (s : Site State)
      → ((noted : List Note) × (f : Failure Fault) × (mutate hmac hash profile has_key now req c
              approved s
            ≡ failed noted f))
        ⊎ ((t : Site State) × (t.state ≡ s.state)
            × Spends hmac profile now req s t
            × Ends c approved t (mutate hmac hash profile has_key now req c approved s))
  unfolding mutate
  mutate-Ends profile has_key now req c approved s =
      let notes = notes_of profile req in
      let touched = touch req.principal now s in
      let (same_account, same_state) = touch_kept req.principal now s in
      let checked = verify_totp hmac touched.account (now / 1000000000) (codes req.totp_code) in
      elim (Bool-cases (needs_totp profile (ceremony_of req))) [
        | inr n ↦ inr (
          touched,
          same_state,
          inl (n, same_account),
          rw (mutate, n) (bind_and_apply-Ends c approved notes touched),
        )
        | inl n ↦ elim (Bool-cases has_key) [
          | inr k ↦ inl (notes, no_key, rw (mutate, n, k))
          | inl k ↦ elim (Option-cases checked.1) [
            | inr (e, v) ↦ inl (notes, bad_totp e, rw (mutate, n, k, v))
            | inl v ↦
                let after : Site State = record touched { account = checked.0 } in
                let good : verify_totp hmac s.account (now / 1000000000) (codes req.totp_code)
                    ≡ (checked.0, none) =
                  ap (λ (a : Account). verify_totp hmac a (now / 1000000000) (codes req.totp_code))
                    (sym same_account)
                  ∙ ap (λ (z : Option Totp.Refused). (checked.0, z)) v in
                inr (
                  after,
                  same_state,
                  inr good,
                  rw (mutate, n, k, v) (bind_and_apply-Ends c approved notes after),
                )
          ]
        ]
      ]

  -- What stands after the mutation, from what the mutation came to.
  abbrev pub Applies :
      Profile
      → ℕ
      → Request
      → Change State Rendered Fault
      → String
      → Site State
      → Site State
      → (Applying State Fault)
      → Type 0
  Applies profile now req c approved s t done =
      (change : Rendered) × Renders hash c approved s.state change
      × (c.apply change s.state ≡ done)
      × Spends hmac profile now req s t

  applied_at :
      (profile : Profile) (now : ℕ) (req : Request) (c : Change State Rendered Fault)
      (approved : String) (s m t : Site State) (u : State) (done : Applying State Fault)
      (change : Rendered)
      → m.state ≡ s.state
      → Spends hmac profile now req s m
      → Renders hash c approved m.state change
      → c.apply change m.state ≡ done
      → record m { state = u } ≡ t
      → Applies profile now req c approved s t done
  applied_at profile now req c approved s m t u done change same spent now_renders k site = (
    change,
    (ap (λ (z : State). c.render z) (sym same) ∙ now_renders.0, now_renders.1),
    ap (λ (z : State). c.apply change z) (sym same) ∙ k,
    subst
        (λ (z : Account).
          ((needs_totp profile (ceremony_of req) ≡ false) × (z ≡ s.account))
          ⊎ (verify_totp hmac s.account (now / 1000000000) (codes req.totp_code) ≡ (z, none)))
        {x = m.account} {y = t.account} (ap (λ (z : Site State). z.account) site) spent,
  )

  pub mutate-succeeded :
      (profile : Profile) (has_key : Bool) (now : ℕ) (req : Request)
      (c : Change State Rendered Fault) (approved : String) (s t : Site State) (noted : List Note)
      → mutate hmac hash profile has_key now req c approved s ≡ succeeded t noted
      → Applies profile now req c approved s t (applied t.state)
  mutate-succeeded profile has_key now req c approved s t noted e =
      elim (mutate-Ends profile has_key now req c approved s) [
        | inl (_, _, k) ↦ absurd (cc (e, k))
        | inr (m, same, spent, inl (_, _, k)) ↦ absurd (cc (e, k))
        | inr (m, same, spent, inr (change, now_renders, u, _, inr (_, _, k))) ↦ absurd (cc (e, k))
        | inr (m, same, spent, inr (change, now_renders, u, _, inl (k, x))) ↦
            let site : record m { state = u } ≡ t = cc (e, x) in
            applied_at profile now req c approved s m t u (applied t.state) change same spent
              now_renders (k ∙ ap (λ (z : Site State). Applying.applied z.state) site) site
      ]

  pub mutate-partially :
      (profile : Profile) (has_key : Bool) (now : ℕ) (req : Request)
      (c : Change State Rendered Fault) (approved : String) (s t : Site State) (noted : List Note)
      (e : Failure Fault)
      → mutate hmac hash profile has_key now req c approved s ≡ partially t noted e
      → (f : Fault) × (e ≡ fault f) × Applies profile now req c approved s t (partly t.state f)
  mutate-partially profile has_key now req c approved s t noted e p =
      elim (mutate-Ends profile has_key now req c approved s) [
        | inl (_, _, k) ↦ absurd (cc (p, k))
        | inr (m, same, spent, inl (_, _, k)) ↦ absurd (cc (p, k))
        | inr (m, same, spent, inr (change, now_renders, u, _, inl (_, k))) ↦ absurd (cc (p, k))
        | inr (m, same, spent, inr (change, now_renders, u, _, inr (f, k, x))) ↦
            let site : record m { state = u } ≡ t = cc (p, x) in
            (
              f,
              cc (p, x),
              applied_at profile now req c approved s m t u (partly t.state f) change same spent
                  now_renders (k ∙ ap (λ (z : Site State). Applying.partly z.state f) site) site,
            )
      ]
