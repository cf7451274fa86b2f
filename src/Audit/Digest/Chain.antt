-- ===== src/Audit/Digest/Chain.antt =====
-- The hash of the last record of a chain of internal/audit, against the bytes the chain is made of.
use nodary.Prelude.{
  bind-some, ℕ, String, ◌≡◌, ◌≢◌, ◌⊎◌, inl, inr, refl, sym, ap, ◌∙◌, Bool-cases, Option, some, List,
  [], ◌∷◌, length, arith, All,
}
use nodary.Audit.Record.{Record, preimage, compute, truncate_ms}
use nodary.Audit.Verify.Spec.{Links}
use nodary.Audit.Database.Sound.{last_of}
use nodary.Audit.Digest.{preimage_text, digest}
use nodary.Audit.Digest.Binding.{IsStored, preimage_text-injective}
use nodary.Canonical.Text.{Text}
use nodary.Canonical.Number.{text_eq}
use nodary.Canonical.Number.Spelled.{text_eq_sound, text_eq-apart}
use nodary.Canonical.Encode.{Numerals, Fields}
use nodary.Canonical.Encode.Normal.{HaveDigits}

-- Two texts with one SHA-256.
pub record SameSum (sha : Text → String) : Type 0 where
  pub a : Text
  pub b : Text
  pub differ : a ≢ b
  pub sums : sha a ≡ sha b

module _ (format_time : ℕ → Text) (detail_of : String → Fields) (m : Numerals)
    (sha : Text → String) where
  abbrev sum : Record → Option String
  sum r = digest format_time detail_of m sha r

  IsStored-preimage :
      (r : Record)
      → IsStored format_time detail_of m r
      → IsStored format_time detail_of m (preimage r)
  IsStored-preimage r h = record {
    v_small = h.v_small;
    seq_small = h.seq_small;
    whole = h.whole;
    detail_text = h.detail_text;
    detail_floats = h.detail_floats;
  }

  sum-text :
      (r : Record) (s : String)
      → compute sum r ≡ some s
      → (t : Text) × (preimage_text format_time detail_of m (preimage r) ≡ some t) × (sha t ≡ s)
  unfolding compute digest
  sum-text r s e =
      let (t, p, q) =
        bind-some (preimage_text format_time detail_of m (preimage r)) (λ t. some (sha t)) s e in
      (t, p, cc q)

  module _ (w : HaveDigits m)
      (time : (a b : ℕ) → format_time a ≡ format_time b → truncate_ms a ≡ truncate_ms b) where
    same_record :
        (x y : Record)
        → IsStored format_time detail_of m x
        → IsStored format_time detail_of m y
        → compute sum x ≡ some x.hash
        → compute sum y ≡ some y.hash
        → x.hash ≡ y.hash
        → (x ≡ y) ⊎ SameSum sha
    same_record x y h k cx cy e =
        let (t, p, a) = sum-text x x.hash cx in
        let (u, q, b) = sum-text y y.hash cy in
        elim (Bool-cases (text_eq t u)) [
          | inl same ↦
              let r = ap some (sym (text_eq_sound t u same)) in
              inl (
                cc (
                  preimage_text-injective format_time detail_of m (preimage x) (preimage y) t w
                      (IsStored-preimage x h) (IsStored-preimage y k) time p (q ∙ r),
                  e,
                ))
          | inr apart ↦
              inr (record { a = t; b = u; differ = text_eq-apart t u apart; sums = a ∙ e ∙ sym b })
        ]

    -- Where every float64 has digits and the text of a time determines its millisecond: two chains of
    -- stored records, linked by the hashes of their canonical texts, of equal length and with the same last
    -- hash, are the same records in every field and follow the same hash, or two different texts have one
    -- SHA-256.
    pub Links-same_texts :
        (i j : String) (n k : ℕ) (g h : String) (xs ys : List Record)
        → Links (compute sum) i n g xs
        → Links (compute sum) j k h ys
        → All (IsStored format_time detail_of m) xs
        → All (IsStored format_time detail_of m) ys
        → length xs ≡ length ys
        → (last_of n g xs).1 ≡ (last_of k h ys).1
        → ((xs ≡ ys) × (g ≡ h)) ⊎ SameSum sha
    Links-same_texts i j n k g h [] [] l r a b s e = inl (refl, e)
    Links-same_texts i j n k g h [] (y ∷ ys) l r a b s e = absurd (omega (arith, s))
    Links-same_texts i j n k g h (x ∷ xs) [] l r a b s e = absurd (omega (arith, s))
    Links-same_texts i j n k g h (x ∷ xs) (y ∷ ys) l r (a, a_rest) (b, b_rest) s e =
        elim (Links-same_texts i j x.seq y.seq x.hash y.hash xs ys l.4 r.4 a_rest b_rest
          (omega (arith, s)) e) [
            | inr c ↦ inr c
            | inl (same, hash) ↦ elim (same_record x y a b l.3 r.3 hash) [
              | inr c ↦ inr c
              | inl one ↦ inl (cc (same, one), sym l.2 ∙ ap (λ (r : Record). r.prev_hash) one ∙ r.2)
            ]
          ]
