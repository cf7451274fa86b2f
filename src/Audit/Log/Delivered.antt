-- ===== src/Audit/Log/Delivered.antt =====
-- `Emit` and `Blocked` of internal/audit/sink.go: what keeps acts refused, and what ends it.
use nodary.Prelude.{
  String, Bool, true, false, Option, none, some, List, [], ◌∷◌, str_eq, ◌==◌, ◌≡◌, refl, inl, inr,
  ◌⊎◌, arith, Bool-cases, All, eq_iff,
}
use nodary.Audit.Record.{Record}
use nodary.Audit.Log.{
  Cause, unrecorded, Acted, World, Delivery, Environment, remembers, forget, emit_to, emit, blocked,
}

-- Every sink that is remembered as failing is one of the sinks.
abbrev pub AreSinks : List String → List String → Type 0
AreSinks sinks failing = All (λ f. remembers f sinks ≡ true) failing

forget-AreSinks :
    (s : String) (ss failing : List String)
    → AreSinks (s ∷ ss) failing
    → AreSinks ss (forget s failing)
unfolding forget remembers
forget-AreSinks s ss [] h = tt
forget-AreSinks s ss (f ∷ fs) h = elim (Bool-cases (str_eq f s)) [
  | inl e ↦ rw (forget, e) (forget-AreSinks s ss fs h.1)
  | inr e ↦
      let other : remembers f ss ≡ true = ground (arith, h.0, e, eq_iff f s, eq_iff s f) in
      rw (forget, e) (other, forget-AreSinks s ss fs h.1)
]

emit_to-taken :
    (ss : List String) (takes : String → Bool) (failing : List String)
    → ((s : String) → takes s ≡ true)
    → AreSinks ss failing
    → emit_to ss takes failing ≡ []
unfolding emit_to remembers
emit_to-taken [] takes [] t h = refl
emit_to-taken [] takes (f ∷ fs) t h = absurd (cc (h.0))
emit_to-taken (s ∷ ss) takes failing t h =
    rw (emit_to, t s) (emit_to-taken ss takes (forget s failing) t (forget-AreSinks s ss failing h))

-- A record that every sink takes leaves no sink failing.
pub emit-unblocks :
    (d : Delivery) (env : Environment) (r : Record) (failing : List String)
    → (r.seq == 0) ≡ false
    → env.serializes r ≡ true
    → ((s : String) → env.takes s r ≡ true)
    → AreSinks d.sinks failing
    → blocked d (emit d env r failing) ≡ false
unfolding emit blocked
emit-unblocks d env r failing n c t h =
    rw (emit, n, c, emit_to-taken d.sinks (λ s. env.takes s r) failing t h)

module _ (valid : String → String) (digest : Record → Option String) {App Detail Error : Type 0}
    (snapshot : Detail → Option (Cause Error) → String) (nothing_noted : Detail) where
  -- A refusal is on record and ends the block, or has no record and leaves the world as it was.
  abbrev pub RefusedOrRecorded : Delivery → World App → Cause Error → Acted App Error → Type 0
  RefusedOrRecorded d w cause a =
      ((a.world ≡ w) × (a.stored ≡ none) × (a.error ≡ some (unrecorded cause)))
      ⊎ ((r : Record) × (a.stored ≡ some r)
          × (a.world.app ≡ w.app)
          × (a.error ≡ some cause)
          × (blocked d a.world.failing ≡ false))
