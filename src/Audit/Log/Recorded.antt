-- ===== src/Audit/Log/Recorded.antt =====
-- What `Log.Act` of internal/audit/log.go guarantees: no change without its record.
use nodary.Prelude.{
  String, Option, none, some, ◌≡◌, refl, sym, ap, ◌∙◌, ◌⊎◌, inl, inr, Bool-cases, Option-cases,
  subst,
}
use nodary.Audit.Record.{Record}
use nodary.Audit.Database.{Database, Append, appended, invalid, unhashable, constraint, append_tx}
use nodary.Audit.Database.Sound.{IsGenuine, append-IsSound}
use nodary.Audit.Log.{
  also_transaction, Request, Ran, succeeded, partially, failed, Cause, delivery_blocked, mutation,
  transaction, unrecorded, Delivery, World, Environment, Acted, emit, blocked, stored_row,
  entry_for, record_only, commit_with, act,
}

pub stored_row-appended :
    (a : Append) (db : Database) (r : Record) → stored_row a ≡ some (db, r) → a ≡ appended db r
unfolding stored_row
stored_row-appended (appended db' r') db r e = cc e
stored_row-appended (invalid f) db r e = absurd (cc e)
stored_row-appended unhashable db r e = absurd (cc e)
stored_row-appended constraint db r e = absurd (cc e)

module _ (valid : String → String) (digest : Record → Option String) {App Detail Error : Type 0}
    (snapshot : Detail → Option (Cause Error) → String) (nothing_noted : Detail) where
  -- The record of a request with an outcome is the last of the chain.
  abbrev pub Appends : Environment → Database → Request → String → Acted App Error → Type 0
  Appends env db req outcome a =
      (detail : String) × (r : Record) × (a.stored ≡ some r)
      × (append_tx digest env.minted db (entry_for valid env.now req outcome detail)
          ≡ appended a.world.db r)

  -- Nothing happened, and the error says so.
  abbrev pub Untouched : World App → Acted App Error → Type 0
  Untouched w a = (a.world ≡ w) × (a.stored ≡ none) × (e : Cause Error) × (a.error ≡ some e)

  -- A refusal is recorded, and nothing else is written.
  abbrev pub Refusal : Environment → World App → Request → Acted App Error → Type 0
  Refusal env w req a =
      (a.world.app ≡ w.app)
      × (Appends env w.db req "failure" a ⊎ Appends env w.db req "partial" a)
      × (e : Cause Error) × (a.error ≡ some e)

  -- The change of the mutation stands beside its record.
  abbrev pub Changed :
      Environment → World App → Request → (App → Ran App Detail Error) → Acted App Error → Type 0
  Changed env w req fn a =
      ((noted : Detail) × (fn w.app ≡ succeeded a.world.app noted)
        × Appends env w.db req "success" a
        × (a.error ≡ none))
      ⊎ ((noted : Detail) × (e : Error) × (fn w.app ≡ partially a.world.app noted e)
          × Appends env w.db req "partial" a
          × (a.error ≡ some (mutation e)))

  record_only-stored :
      (d : Delivery) (env : Environment) (w : World App) (req : Request) (outcome : String)
      (noted : Detail) (cause : Cause Error)
      → let a = record_only valid digest snapshot nothing_noted d env w req outcome noted cause in
        Untouched w a
        ⊎ ((a.world.app ≡ w.app) × Appends env w.db req outcome a × (a.error ≡ some cause))
  unfolding record_only
  record_only-stored d env w req outcome noted cause =
      let detail = snapshot noted (some cause) in
      let row = append_tx digest env.minted w.db (entry_for valid env.now req outcome detail) in
      elim (Option-cases (stored_row row)) [
        | inl e ↦ rw (record_only, e) (inl (refl, refl, unrecorded cause, refl))
        | inr ((db, r), e) ↦ elim (Bool-cases env.appends) [
          | inl c ↦
              rw (record_only, e, c)
                (inr (refl, (detail, r, refl, stored_row-appended row db r e), refl))
          | inr c ↦ rw (record_only, e, c) (inl (refl, refl, unrecorded cause, refl))
        ]
      ]

  commit_with-stored :
      (d : Delivery) (env : Environment) (w : World App) (req : Request) (outcome : String)
      (app : App) (detail : String) (cause : Option (Cause Error))
      → (commit_with valid digest snapshot nothing_noted d env w req outcome app detail cause
          ≡ none)
        ⊎ ((a : Acted App Error) × (commit_with valid digest snapshot nothing_noted d env w req
                outcome app detail cause
              ≡ some a)
            × (a.world.app ≡ app)
            × Appends env w.db req outcome a
            × (a.error ≡ cause))
  unfolding commit_with
  commit_with-stored d env w req outcome app detail cause =
      let row = append_tx digest env.minted w.db (entry_for valid env.now req outcome detail) in
      elim (Option-cases (stored_row row)) [
        | inl e ↦ inl (rw (commit_with, e))
        | inr ((db, r), e) ↦ elim (Bool-cases env.commits) [
          | inl c ↦ inr (
            record {
              world = record { app = app; db = db; failing = emit d env r w.failing };
              stored = some r;
              error = cause;
            },
            rw (commit_with, e, c),
            refl,
            (detail, r, refl, stored_row-appended row db r e),
            refl,
          )
          | inr c ↦ inl (rw (commit_with, e, c))
        ]
      ]

  Ran-cases :
      (x : Ran App Detail Error)
      → ((app : App) × (noted : Detail) × (x ≡ succeeded app noted))
        ⊎ ((app : App) × (noted : Detail) × (e : Error) × (x ≡ partially app noted e))
        ⊎ ((noted : Detail) × (e : Error) × (x ≡ failed noted e))
  Ran-cases (succeeded app noted) = inl (app, noted, refl)
  Ran-cases (partially app noted e) = inr (inl (app, noted, e, refl))
  Ran-cases (failed noted e) = inr (inr (noted, e, refl))

  abbrev pub Kept :
      Environment → World App → Request → (App → Ran App Detail Error) → Acted App Error → Type 0
  Kept env w req fn a = Untouched w a ⊎ Refusal env w req a ⊎ Changed env w req fn a

  refused :
      (d : Delivery) (env : Environment) (w : World App) (req : Request)
      (fn : App → Ran App Detail Error) (outcome : String) (noted : Detail) (cause : Cause Error)
      → (outcome ≡ "failure") ⊎ (outcome ≡ "partial")
      → Kept env w req fn
          (record_only valid digest snapshot nothing_noted d env w req outcome noted cause)
  refused d env w req fn outcome noted cause o =
      let a = record_only valid digest snapshot nothing_noted d env w req outcome noted cause in
      elim (record_only-stored d env w req outcome noted cause) [
        | inl u ↦ inl u
        | inr (own, row, e) ↦ elim o [
          | inl q ↦ inr (
              inl (
                own,
                inl (
                    subst (λ (z : String). Appends env w.db req z a) {x = outcome} {y = "failure"} q
                      row),
                cause,
                e,
              ))
          | inr q ↦ inr (
              inl (
                own,
                inr (
                    subst (λ (z : String). Appends env w.db req z a) {x = outcome} {y = "partial"} q
                      row),
                cause,
                e,
              ))
        ]
      ]

  -- An act leaves the world as it was and has no record, or changes nothing and its failure is recorded,
  -- or its change stands beside the record that says so: a change is never committed without a record.
  pub act-recorded :
      (d : Delivery) (env : Environment) (w : World App) (req : Request)
      (fn : App → Ran App Detail Error)
      → Kept env w req fn (act valid digest snapshot nothing_noted d env w req fn)
  unfolding act
  act-recorded d env w req fn = elim (Bool-cases (blocked d w.failing)) [
    | inl b ↦
        by
          (record_only valid digest snapshot nothing_noted d env w req "failure" nothing_noted
            delivery_blocked)
          (rw (act, b)) (refused d env w req fn "failure" nothing_noted delivery_blocked (inl refl))
    | inr b ↦ elim (Ran-cases (fn w.app)) [
      | inl (app, noted, f) ↦
          elim (commit_with-stored d env w req "success" app (snapshot noted none) none) [
            | inl c ↦
                by (record { world = w; stored = none; error = some transaction })
                  (rw (act, b, f, c)) (inl (refl, refl, transaction, refl))
            | inr (a, c, own, row, good) ↦ by a (rw (act, b, f, c)) (
                inr (
                  inr (
                    inl (noted, f ∙ ap (λ (z : App). Ran.succeeded z noted) (sym own), row, good))))
          ]
      | inr (inl (app, noted, e, f)) ↦
          elim (commit_with-stored d env w req "partial" app (snapshot noted (some (mutation e)))
            (some (mutation e))) [
              | inl c ↦
                  by
                    (record_only valid digest snapshot nothing_noted d env w req "partial" noted
                      (also_transaction (mutation e)))
                    (rw (act, b, f, c))
                    (refused d env w req fn "partial" noted (also_transaction (mutation e))
                      (inr refl))
              | inr (a, c, own, row, bad) ↦ by a (rw (act, b, f, c)) (
                  inr (
                    inr (
                      inr (
                        noted,
                        e,
                        f ∙ ap (λ (z : App). Ran.partially z noted e) (sym own),
                        row,
                        bad,
                      ))))
            ]
      | inr (inr (noted, e, f)) ↦
          by
            (record_only valid digest snapshot nothing_noted d env w req "failure" noted
              (mutation e))
            (rw (act, b, f)) (refused d env w req fn "failure" noted (mutation e) (inl refl))
    ]
  ]
    where
      by :
          (a : Acted App Error)
          → act valid digest snapshot nothing_noted d env w req fn ≡ a
          → Kept env w req fn a
          → Kept env w req fn (act valid digest snapshot nothing_noted d env w req fn)
      by a q k =
          subst (λ (z : Acted App Error). Kept env w req fn z) {x = a}
            {y = act valid digest snapshot nothing_noted d env w req fn} (sym q) k

  -- The chain stays genuine over any act: after its first record, sound.
  act-IsGenuine :
      (d : Delivery) (env : Environment) (w : World App) (req : Request)
      (fn : App → Ran App Detail Error)
      → IsGenuine digest w.db
      → IsGenuine digest (act valid digest snapshot nothing_noted d env w req fn).world.db
  act-IsGenuine d env w req fn g = elim (act-recorded d env w req fn) [
    | inl u ↦
        subst (λ (z : World App). IsGenuine digest z.db) {x = w}
          {y = (act valid digest snapshot nothing_noted d env w req fn).world} (sym u.0) g
    | inr (inl (_, inl row, _, _)) ↦ longer "failure" row
    | inr (inl (_, inr row, _, _)) ↦ longer "partial" row
    | inr (inr (inl (_, _, row, _))) ↦ longer "success" row
    | inr (inr (inr (_, _, _, row, _))) ↦ longer "partial" row
  ]
    where
      longer :
          (outcome : String)
          → Appends env w.db req outcome (act valid digest snapshot nothing_noted d env w req fn)
          → IsGenuine digest (act valid digest snapshot nothing_noted d env w req fn).world.db
      longer outcome (detail, r, _, e) =
          inr
            (append-IsSound digest env.minted w.db
              (act valid digest snapshot nothing_noted d env w req fn).world.db
              (entry_for valid env.now req outcome detail) r e g).0
