-- ===== src/Audit/Tamper.antt =====
-- The hashes of a chain of internal/audit/record.go against the records they stand for.
use native.Mathlib.Decide.{ℕ_discrete}
use nodary.Prelude.{
  ℕ, String, ◌≡◌, ◌≢◌, ◌⊎◌, inl, inr, refl, sym, ◌∙◌, ap, Bool-cases, str_eq, eq_iff, Option, some,
  List, [], ◌∷◌, length, arith,
}
use nodary.Audit.Record.{Record, preimage, compute}
use nodary.Audit.Verify.Spec.{Links}
use nodary.Audit.Database.Sound.{last_of}

String-discrete : Discrete String
String-discrete s t = elim (Bool-cases (str_eq s t)) [
  | inl e ↦ yes ((eq_iff s t).0 e)
  | inr n ↦ no (λ p. cc ((eq_iff s t).1 p, n))
]

Record-discrete : Discrete Record
Record-discrete = hlevel (ℕ_discrete, String-discrete)

module _ (digest : Record → Option String) where
  -- Two different preimages with one hash.
  pub record Collision : Type 0 where
    pub a : Record
    pub b : Record
    pub hash : String
    pub a_hash : digest (preimage a) ≡ some hash
    pub b_hash : digest (preimage b) ≡ some hash
    pub differ : preimage a ≢ preimage b

  same_hash :
      (x y : Record)
      → compute digest x ≡ some x.hash
      → compute digest y ≡ some y.hash
      → x.hash ≡ y.hash
      → (x ≡ y) ⊎ Collision
  unfolding compute
  same_hash x y cx cy e = elim (Record-discrete (preimage x) (preimage y)) [
    | yes p ↦ inl (cc (p, e))
    | no d ↦ inr (record {
      a = x;
      b = y;
      hash = x.hash;
      a_hash = cx;
      b_hash = cy ∙ ap some (sym e);
      differ = d;
    })
  ]

  -- Two chains of equal length with the same last hash are the same records, in every field, and
  -- follow the same hash; or they exhibit two preimages with one hash.
  Links-rigid :
      (i j : String) (n m : ℕ) (g h : String) (xs ys : List Record)
      → Links (compute digest) i n g xs
      → Links (compute digest) j m h ys
      → length xs ≡ length ys
      → (last_of n g xs).1 ≡ (last_of m h ys).1
      → ((xs ≡ ys) × (g ≡ h)) ⊎ Collision
  Links-rigid i j n m g h [] [] l k s e = inl (refl, e)
  Links-rigid i j n m g h [] (y ∷ ys) l k s e = absurd (omega arith)
  Links-rigid i j n m g h (x ∷ xs) [] l k s e = absurd (omega arith)
  Links-rigid i j n m g h (x ∷ xs) (y ∷ ys) l k s e =
      elim (Links-rigid i j x.seq y.seq x.hash y.hash xs ys l.4 k.4 (omega arith) e) [
        | inr c ↦ inr c
        | inl (same, hash) ↦ elim (same_hash x y l.3 k.3 hash) [
          | inr c ↦ inr c
          | inl one ↦ inl (cc (same, one), sym l.2 ∙ ap (λ (r : Record). r.prev_hash) one ∙ k.2)
        ]
      ]
