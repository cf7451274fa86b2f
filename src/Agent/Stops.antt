-- ===== src/Agent/Stops.antt =====
-- The loop of `Reconcile` of internal/agent/reconcile.go that stops what is not wanted.
use nodary.Prelude.{
  String, Bool, true, false, List, [], ◌∷◌, str_eq, ◌≡◌, refl, ap, ◌∙◌, ◌⊎◌, inl, inr, arith,
  Bool-cases, eq_iff, sym,
}
use nodary.Agent.{stop_others}
use nodary.Agent.Model.{Host, has}
use nodary.Agent.Apart.{Governed}

module _ {Sys : Type 0} (h : Host Sys) {own : String → Bool} (g : Governed h own)
    (wanted : List String) where
  -- The host after the loop.
  abbrev after : List String → Sys → Sys
  after names s = (stop_others h wanted names s).2

  after_wanted :
      (z : String) (zs : List String) (s : Sys)
      → has wanted z ≡ true
      → after (z ∷ zs) s ≡ after zs s
  unfolding stop_others
  after_wanted z zs s e = ground (arith, e)

  after_other :
      (z : String) (zs : List String) (s : Sys)
      → has wanted z ≡ false
      → after (z ∷ zs) s ≡ after zs (h.stop z s).1
  unfolding stop_others
  after_other z zs s e = let went = (g.stopped z s).0 in ground (arith, e, went)

  -- A unit that is wanted, or is not in the list, is left alone.
  pub stop_others-kept :
      (y : String) (names : List String) (s : Sys)
      → (has wanted y ≡ true) ⊎ (has names y ≡ false)
      → h.active_state y (after names s) ≡ h.active_state y s
  unfolding stop_others has
  stop_others-kept y [] s e = refl
  stop_others-kept y (z ∷ zs) s e =
      let rest : (has wanted y ≡ true) ⊎ (has zs y ≡ false) = elim e [
        | inl w ↦ inl w
        | inr m ↦ inr (ground (arith, m))
      ] in
      elim (Bool-cases (has wanted z)) [
        | inl w ↦ ap (h.active_state y) (after_wanted z zs s w) ∙ stop_others-kept y zs s rest
        | inr w ↦
            let apart : str_eq y z ≡ false = elim (Bool-cases (str_eq y z)) [
              | inr d ↦ d
              | inl d ↦
                  let same : y ≡ z = ground (arith, d, eq_iff y z) in
                  let here : has (z ∷ zs) z ≡ true = ground (arith, eq_iff z z) in
                  elim e [ inl k ↦ absurd (cc (k, w, same)) | inr k ↦ absurd (cc (k, here, same)) ]
            ] in
            ap (h.active_state y) (after_other z zs s w)
            ∙ stop_others-kept y zs (h.stop z s).1 rest
            ∙ g.stop_frame z y s apart
      ]

  -- What is not active is not active afterwards.
  stop_others-inactive :
      (y : String) (names : List String) (s : Sys)
      → str_eq (h.active_state y s) "active" ≡ false
      → str_eq (h.active_state y (after names s)) "active" ≡ false
  unfolding stop_others
  stop_others-inactive y [] s e = e
  stop_others-inactive y (z ∷ zs) s e = elim (Bool-cases (has wanted z)) [
    | inl w ↦ rw (after_wanted z zs s w) (stop_others-inactive y zs s e)
    | inr w ↦
        let down : str_eq (h.active_state y (h.stop z s).1) "active" ≡ false =
          elim (Bool-cases (str_eq y z)) [
            | inr d ↦ rw (g.stop_frame z y s d) e
            | inl d ↦
                let same : y ≡ z = ground (arith, d, eq_iff y z) in rw same ((g.stopped z s).1)
          ] in
        rw (after_other z zs s w) (stop_others-inactive y zs (h.stop z s).1 down)
  ]

  -- What is listed and not wanted is not active afterwards.
  pub stop_others-stopped :
      (y : String) (names : List String) (s : Sys)
      → has wanted y ≡ false
      → has names y ≡ true
      → str_eq (h.active_state y (after names s)) "active" ≡ false
  unfolding has
  stop_others-stopped y [] s w e = absurd (cc e)
  stop_others-stopped y (z ∷ zs) s w e = elim (Bool-cases (str_eq z y)) [
    | inl d ↦
        let same : z ≡ y = ground (arith, d, eq_iff z y) in
        let other : has wanted z ≡ false = rw same w in
        let down : str_eq (h.active_state y (h.stop z s).1) "active" ≡ false =
          rw (sym same) ((g.stopped z s).1) in
        rw (after_other z zs s other) (stop_others-inactive y zs (h.stop z s).1 down)
    | inr d ↦
        let more : has zs y ≡ true = ground (arith, e, d) in
        elim (Bool-cases (has wanted z)) [
          | inl k ↦ rw (after_wanted z zs s k) (stop_others-stopped y zs s w more)
          | inr k ↦ rw (after_other z zs s k) (stop_others-stopped y zs (h.stop z s).1 w more)
        ]
  ]
