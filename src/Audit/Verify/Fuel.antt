-- ===== src/Audit/Verify/Fuel.antt =====
-- The fuel of the walk of internal/audit/verify.go.
use nodary.Prelude.{
  ℕ, zero, suc, ◌+◌, ◌≤◌, ◌<◌, String, ◌≡◌, Option, some, List, [], ◌∷◌, ◌++◌, arith, length,
  length-append, Option-cases, inl, inr,
}
use nodary.Audit.Record.{Record}
use nodary.Audit.Verify.Steps.{
  Fill-cases, stopped, joined, round_end, round_stop, round_broke, round_next, started_empty,
  started_stop, started_next, verify_broke, verify_next,
}
use nodary.Audit.Verify.{
  Result, empty_result, reorder_window, start_walk, stop_with, lowest, join, VerifyOpts, Item,
  readable, damaged, Walk, held, delete, filled, fill, inspect, settle, count, finish, walk_from,
  walk_started, verify,
}

pub length-delete-lt :
    (n : ℕ) (rs : List Record) (r : Record) → held n rs ≡ some r → length (delete n rs) < length rs
unfolding held delete
length-delete-lt n [] r h = cc
length-delete-lt n (x ∷ rs) r h = ground (arith, length-delete-lt n rs r)

-- How much is left to do.
abbrev pub left : Walk → ℕ
left w = length w.pending + length w.items

module _ (compute : Record → Option String) where
  -- Reading moves items into what is held, or drops them.
  pub left-fill :
      (n : ℕ) (w : Walk) (items : List Item) (w' : Walk)
      → fill compute n w items ≡ filled w'
      → left w' ≤ length w.pending + length items
  unfolding fill
  left-fill n w [] w' h = ground arith
  left-fill n w (damaged ∷ rest) w' h = ground arith
  left-fill n w (readable r ∷ rest) w' h = ground (
    arith,
    left-fill n w rest w',
    left-fill n (record w { pending = w.pending ++ r ∷ [] }) rest w',
    length-append w.pending (r ∷ []),
  )

  left-round :
      (w w' : Walk) (r : Record)
      → held w.next w.pending ≡ some r
      → fill compute reorder_window (settle w r) w.items ≡ filled w'
      → left w' < left w
  unfolding settle
  left-round w w' r e f = omega (
    arith,
    left-fill reorder_window (settle w r) w.items w' f,
    length-delete-lt w.next w.pending r e,
  )

  pub walk_from_total :
      (fuel : ℕ) (w : Walk) (res : Result)
      → left w < fuel
      → (out : Result) × (walk_from compute fuel w res ≡ some out)
  walk_from_total zero w res h = elim h [ ]
  walk_from_total (suc fuel) w res h = elim (Option-cases (held w.next w.pending)) [
    | inl e ↦ (finish w res, round_end compute fuel w res e)
    | inr (r, e) ↦ elim (Option-cases (inspect compute w r)) [
      | inr (k, e') ↦ (stop_with res r.seq k, round_stop compute fuel w res r e k e')
      | inl e' ↦ elim (Fill-cases (fill compute reorder_window (settle w r) w.items)) [
        | inl (p, f) ↦
            (record (count w r res) { problem = some p }, round_broke compute fuel w res r e p e' f)
        | inr (w', f) ↦
            rw (round_next compute fuel w res r e w' e' f)
              (walk_from_total fuel w' (count w r res) (omega (arith, left-round w w' r e f)))
      ]
    ]
  ]

  walk_started_total :
      (fuel : ℕ) (opts : VerifyOpts) (w : Walk)
      → left w < fuel
      → (out : Result) × (walk_started compute fuel opts w ≡ some out)
  walk_started_total fuel opts w h = elim (Option-cases (held (lowest w.pending) w.pending)) [
    | inl e ↦ (stopped w, started_empty compute fuel opts w e)
    | inr (first, e) ↦ elim (Option-cases (join opts first).problem) [
      | inr (p, e') ↦ (join opts first, started_stop compute fuel opts w first p e e')
      | inl e' ↦
          rw (started_next compute fuel opts w first e e')
            (walk_from_total fuel (record w { next = lowest w.pending }) (joined opts w first) h)
    ]
  ]

  -- For every source and expectation the walk gives a result: its fuel, one more than the items of
  -- the source, is enough.
  pub verify_total :
      (items : List Item) (opts : VerifyOpts)
      → (out : Result) × (verify compute items opts ≡ some out)
  verify_total items opts =
      elim (Fill-cases (fill compute reorder_window (start_walk items) items)) [
        | inl (p, f) ↦
            (record empty_result { problem = some p }, verify_broke compute items opts p f)
        | inr (w, f) ↦ rw (verify_next compute items opts w f) (
            walk_started_total (suc (length items)) opts w
              (omega (arith, left-fill reorder_window (start_walk items) items w f)))
      ]
