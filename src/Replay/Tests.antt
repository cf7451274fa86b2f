-- ===== src/Replay/Tests.antt =====
-- Witnesses of the theorems on idempotency.
use nodary.Prelude.{◌+◌, ◌≤◌, ◌≡◌, refl, String, true, none, some, [], ◌∷◌, arith}
use nodary.Replay.{ClaimKey, Row, Claim, put, insert, claim, is_success}
use nodary.Replay.Once.Steps.{Table, count, Step, Reach}
use nodary.Replay.Once.{Reach-once}

abbrev k1 : ClaimKey
k1 = record { key = "k1"; principal = "alice" }

abbrev claimed : Row
claimed = record { request = "r1"; status = 0; response = ""; created_at = 1000 }

abbrev held : Table
held = put (λ t. none) k1 (some claimed)

is_claimed : claim 1000 k1 "r1" (λ t. none) ≡ Claim.yours held
unfolding claim insert
is_claimed = refl

is_created : is_success 201 ≡ true
unfolding is_success
is_created = refl

Reach-once_example : count k1 [] + count k1 (k1 ∷ []) ≤ 1
Reach-once_example =
    Reach-once {opened = 1000}
      (Reach.steps
        (Reach.steps Reach.empty
          (Step.starts 1000 k1 "r1" (λ t. none) held [] [] (omega arith) (omega arith) is_claimed))
        (Step.records k1 201 "sealed" held [] [] [] is_created))
      k1

abbrev other_request : String
other_request = "r2"

holds_claimed : held k1 ≡ some claimed
unfolding put
holds_claimed = refl
