-- ===== src/Policy/Diff/Shown.antt =====
-- What `showBool`, `showInt` and `showList` of internal/policy/diff.go print tells the settings apart.
use nodary.Prelude.{
  ℕ, Bool, true, false, ◌||◌, List, [], ◌∷◌, ◌++◌, ◌==◌, ◌≡◌, ◌≢◌, refl, sym, ap, ◌∙◌, arith,
}
use nodary.Canonical.Text.{Text}
use nodary.Audit.Record.{codes}
use nodary.Policy.Diff.{show_bool, joined, show_list}

unfoldable pub has_comma : Text → Bool
has_comma [] = false
has_comma (c ∷ s) = (c == b',') || has_comma s

unfoldable pub any_comma : List Text → Bool
any_comma [] = false
any_comma (e ∷ es) = has_comma e || any_comma es

pub show_bool-injective : (x y : Bool) → show_bool x ≡ show_bool y → x ≡ y
unfolding show_bool
show_bool-injective true true e = refl
show_bool-injective false false e = refl
show_bool-injective true false e = absurd (cc e)
show_bool-injective false true e = absurd (cc e)

has_comma-append : (s t : Text) → has_comma (s ++ (b',' ∷ t)) ≡ true
unfolding has_comma
has_comma-append [] t = refl
has_comma-append (c ∷ s) t = ground (arith, has_comma-append s t)

-- A text ends where its first comma is.
split_comma :
    (s t u v : Text)
    → has_comma s ≡ false
    → has_comma t ≡ false
    → s ++ (b',' ∷ u) ≡ t ++ (b',' ∷ v)
    → (s ≡ t) × (u ≡ v)
unfolding has_comma
split_comma [] [] u v hs ht e = (refl, cc e)
split_comma [] (d ∷ t) u v hs ht e = let q : d ≡ b',' = cc e in absurd (ground (arith, ht, q))
split_comma (c ∷ s) [] u v hs ht e = let q : c ≡ b',' = cc e in absurd (ground (arith, hs, q))
split_comma (c ∷ s) (d ∷ t) u v hs ht e =
    let (same, rest) = split_comma s t u v (ground (arith, hs)) (ground (arith, ht)) (cc e) in
    (cc (same, e), rest)

joined-injective :
    (x : Text) (xs : List Text) (y : Text) (ys : List Text)
    → any_comma (x ∷ xs) ≡ false
    → any_comma (y ∷ ys) ≡ false
    → joined (x ∷ xs) ≡ joined (y ∷ ys)
    → x ∷ xs ≡ y ∷ ys
unfolding any_comma joined
joined-injective x [] y [] hx hy e = cc e
joined-injective x [] y (z ∷ ys) hx hy e =
    let k = ap has_comma e ∙ has_comma-append y (b' ' ∷ joined (z ∷ ys)) in
    absurd (ground (arith, hx, k))
joined-injective x (z ∷ xs) y [] hx hy e =
    let k = ap has_comma (sym e) ∙ has_comma-append x (b' ' ∷ joined (z ∷ xs)) in
    absurd (ground (arith, hy, k))
joined-injective x (w ∷ xs) y (z ∷ ys) hx hy e =
    let (same, rest) =
      split_comma x y (b' ' ∷ joined (w ∷ xs)) (b' ' ∷ joined (z ∷ ys)) (ground (arith, hx))
        (ground (arith, hy)) e in
    let tail = joined-injective w xs z ys (ground (arith, hx)) (ground (arith, hy)) (cc rest) in
    cc (same, tail)

last_same : (s t : Text) (c d : ℕ) → s ++ (c ∷ []) ≡ t ++ (d ∷ []) → (s ≡ t) × (c ≡ d)
last_same [] [] c d e = (refl, cc e)
last_same [] (y ∷ []) c d e = absurd (cc e)
last_same [] (y ∷ z ∷ t) c d e = absurd (cc e)
last_same (x ∷ []) [] c d e = absurd (cc e)
last_same (x ∷ w ∷ s) [] c d e = absurd (cc e)
last_same (x ∷ s) (y ∷ t) c d e =
    let (same, ends) = last_same s t c d (cc e) in (cc (same, e), ends)

closing : (w t : Text) → b']' ∷ b' ' ∷ b'(' ∷ (w ++ codes ")") ≢ t ++ codes "]"
closing w t e = omega (arith, (last_same (b']' ∷ b' ' ∷ b'(' ∷ w) t b')' b']' e).1)

-- Lists of entries without commas that are shown the same are the same.
pub show_list-injective :
    (xs ys : List Text) (w : Text)
    → any_comma xs ≡ false
    → any_comma ys ≡ false
    → show_list xs w ≡ show_list ys w
    → xs ≡ ys
unfolding show_list
show_list-injective [] [] w hx hy e = refl
show_list-injective [] (y ∷ ys) w hx hy e = absurd (closing w (joined (y ∷ ys)) (cc e))
show_list-injective (x ∷ xs) [] w hx hy e = absurd (closing w (joined (x ∷ xs)) (cc (sym e)))
show_list-injective (x ∷ xs) (y ∷ ys) w hx hy e =
    joined-injective x xs y ys hx hy
      (last_same (joined (x ∷ xs)) (joined (y ∷ ys)) b']' b']' (cc e)).0
