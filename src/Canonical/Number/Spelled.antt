-- ===== src/Canonical/Number/Spelled.antt =====
-- Whether internal/canonical/number.go spells an integer as it was given.
use nodary.Prelude.{
  ℕ, ◌+◌, ◌<◌, ◌≡◌, ◌≢◌, refl, sym, ap, ◌∙◌, subst, Bool, true, false, Option, none, some, [], ◌∷◌,
  ◌⊎◌, inl, inr, Bool-cases, arith, ℤ, pos, negsuc, leb, All,
}
use nodary.Canonical.Text.{Text}
use nodary.Canonical.Number.{
  Float, format_number, digits_of, magnitude, write_int, text_eq, max_exact, format_big_int,
  format_int,
}
use nodary.Canonical.Number.Digits.{
  value_from, value-digits_of, digits_of-IsDigits, format_int-digits, is_digit,
}

pub text_eq_sound : (s t : Text) → text_eq s t ≡ true → s ≡ t
unfolding text_eq
text_eq_sound [] [] e = refl
text_eq_sound [] (d ∷ t) e = absurd (cc e)
text_eq_sound (c ∷ s) [] e = absurd (cc e)
text_eq_sound (c ∷ s) (d ∷ t) e =
    let same : c ≡ d = ground (arith, e) in cc (same, text_eq_sound s t (ground (arith, e)))

pub text_eq_refl : (s : Text) → text_eq s s ≡ true
unfolding text_eq
text_eq_refl [] = refl
text_eq_refl (c ∷ s) = ground (arith, text_eq_refl s)

-- Two texts that the comparison tells apart.
pub text_eq-apart : (s t : Text) → text_eq s t ≡ false → s ≢ t
text_eq-apart s t e q = absurd (cc (sym (ap (text_eq s) (sym q)) ∙ e, text_eq_refl s))

pub digits_of-injective : (a b : ℕ) → digits_of a ≡ digits_of b → a ≡ b
digits_of-injective a b e =
    sym (value-digits_of a) ∙ ap (λ (t : Text). value_from 0 t) e ∙ value-digits_of b

unsigned : (n : ℕ) (t : Text) → digits_of n ≢ b'-' ∷ t
unsigned n t e =
    let h = subst (λ (s : Text). All (λ c. is_digit c ≡ true) s) e (digits_of-IsDigits n) in
    absurd (cc h.0)

abbrev tail : Text → Text
tail [] = []
tail (c ∷ s) = s

-- No two integers have the same digits and sign.
pub write_int-injective : (i j : ℤ) → write_int i ≡ write_int j → i ≡ j
write_int-injective (pos a) (pos b) e =
    let q = digits_of-injective (a + 0) (b + 0) e in ap pos (omega (arith, q))
write_int-injective (pos a) (negsuc b) e =
    absurd (unsigned (a + 0) (digits_of (magnitude (negsuc b))) e)
write_int-injective (negsuc a) (pos b) e =
    absurd (unsigned (b + 0) (digits_of (magnitude (negsuc a))) (sym e))
write_int-injective (negsuc a) (negsuc b) e =
    let q = digits_of-injective (magnitude (negsuc a)) (magnitude (negsuc b)) (ap tail e) in
    ap negsuc (omega (arith, q))

Option-cases : (o : Option Text) → (o ≡ none) ⊎ ((t : Text) × (o ≡ some t))
Option-cases none = inl refl
Option-cases (some t) = inr (t, refl)

rounded :
    (nearest : ℤ → Float × Bool) (i : ℤ) (t : Text)
    → (nearest i).1 ≡ false
    → format_big_int nearest i ≡ some t
    → t ≡ write_int i
unfolding format_big_int
rounded nearest i t x e = elim (Option-cases (format_number (nearest i).0)) [
  | inl n ↦ absurd (cc (rw (x, n) at e))
  | inr (u, n) ↦ elim (Bool-cases (text_eq u (write_int i))) [
    | inl y ↦ let q : some u ≡ some t = rw (x, n, y) at e in cc (q, text_eq_sound u (write_int i) y)
    | inr y ↦ absurd (cc (rw (x, n, y) at e))
  ]
]

larger :
    (nearest : ℤ → Float × Bool) (i : ℤ)
    → leb (magnitude i) max_exact ≡ false
    → format_int nearest i ≡ format_big_int nearest i
unfolding format_int
larger nearest i x = rw x refl

-- An integer that is written is written as its own digits, unless it is past 2^53 and a float64 holds it
-- exactly; so an integer past 2^53 that no float64 holds is never written with other digits.
format_int-write_int :
    (nearest : ℤ → Float × Bool) (i : ℤ) (t : Text)
    → format_int nearest i ≡ some t
    → (t ≡ write_int i) ⊎ ((max_exact < magnitude i) × ((nearest i).1 ≡ true))
format_int-write_int nearest i t e = elim (Bool-cases (leb (magnitude i) max_exact)) [
  | inl x ↦ let q = format_int-digits nearest i (ground (arith, x)) in inl (cc (q, e))
  | inr x ↦ elim (Bool-cases (nearest i).1) [
    | inl y ↦ inr (ground (arith, x), y)
    | inr y ↦ inl (rounded nearest i t y (sym (larger nearest i x) ∙ e))
  ]
]

-- Two integers past 2^53 with one nearest float64, of which a float64 holds the first exactly and is
-- written with the digits of the second, are written with the same text, which is not the digits of the
-- first if the two differ.
pub format_int-same_text :
    (nearest : ℤ → Float × Bool) (i j : ℤ)
    → max_exact < magnitude i
    → max_exact < magnitude j
    → i ≢ j
    → (nearest i).1 ≡ true
    → (nearest j).0 ≡ (nearest i).0
    → format_number (nearest i).0 ≡ some (write_int j)
    → (format_int nearest i ≡ format_int nearest j) × (format_int nearest i ≢ some (write_int i))
unfolding format_big_int
format_int-same_text nearest i j a b d x n e =
    let p = larger nearest i (ground (arith, a)) in
    let q = larger nearest j (ground (arith, b)) in
    let first : format_int nearest i ≡ some (write_int j) = p ∙ (rw x e) in
    let second : format_big_int nearest j ≡ some (write_int j) = of_second in
    (first ∙ sym second ∙ sym q, λ r. d (write_int-injective i j (cc (first, r))))
  where
    of_second : format_big_int nearest j ≡ some (write_int j)
    of_second = elim (Bool-cases (nearest j).1) [
      | inl y ↦ rw (y, n) e
      | inr y ↦ rw (y, n, e, text_eq_refl (write_int j)) refl
    ]
