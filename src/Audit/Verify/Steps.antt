-- ===== src/Audit/Verify/Steps.antt =====
-- The branches of one round of the walk, so that proofs by induction keep its parts shut.
use nodary.Prelude.{
  ℕ, zero, suc, String, ◌≡◌, ◌⊎◌, inl, inr, refl, Option, none, some, List, length, arith,
  if◌then◌else◌,
}
use nodary.Audit.Record.{Record}
use nodary.Audit.Verify.{
  Kind, Problem, unreadable, Result, empty_result, stop_with, VerifyOpts, reorder_window, Item,
  Walk, start_walk, held, lowest, join, Fill, filled, broke, finish, settle, count, fill, inspect,
  walk_from, walk_started, verify,
}

pub Fill-cases : (f : Fill) → ((p : Problem) × (f ≡ broke p)) ⊎ ((w : Walk) × (f ≡ filled w))
Fill-cases (broke p) = inl (p, refl)
Fill-cases (filled w) = inr (w, refl)

abbrev pub stopped : Walk → Result
stopped w = if w.source_err then stop_with empty_result 1 unreadable else empty_result

abbrev pub joined : VerifyOpts → Walk → Record → Result
joined opts w first = record (join opts first) {
  first_seq = lowest w.pending;
  first_prev_hash = first.prev_hash;
}

module _ (compute : Record → Option String) where
  pub no_fuel : (w : Walk) (res out : Result) → walk_from compute zero w res ≡ some out → ⊥
  unfolding walk_from
  no_fuel w res out h = cc

  module _ (fuel : ℕ) (w : Walk) (res : Result) where
    pub round_end :
        held w.next w.pending ≡ none → walk_from compute (suc fuel) w res ≡ some (finish w res)
    unfolding walk_from
    round_end e = ground arith

    module _ (r : Record) (e : held w.next w.pending ≡ some r) where
      pub round_stop :
          (k : Kind)
          → inspect compute w r ≡ some k
          → walk_from compute (suc fuel) w res ≡ some (stop_with res r.seq k)
      unfolding walk_from
      round_stop k e' = ground arith

      pub round_broke :
          (p : Problem)
          → inspect compute w r ≡ none
          → fill compute reorder_window (settle w r) w.items ≡ broke p
          → walk_from compute (suc fuel) w res ≡ some (record (count w r res) { problem = some p })
      unfolding walk_from
      round_broke p e' f = rw (walk_from, e, e', f)

      pub round_next :
          (w' : Walk)
          → inspect compute w r ≡ none
          → fill compute reorder_window (settle w r) w.items ≡ filled w'
          → walk_from compute (suc fuel) w res ≡ walk_from compute fuel w' (count w r res)
      unfolding walk_from
      round_next w' e' f = rw (walk_from, e, e', f)

  module _ (fuel : ℕ) (opts : VerifyOpts) (w : Walk) where
    pub started_empty :
        held (lowest w.pending) w.pending ≡ none
        → walk_started compute fuel opts w ≡ some (stopped w)
    unfolding walk_started
    started_empty e = rw (walk_started, e)

    pub started_stop :
        (first : Record) (p : Problem)
        → held (lowest w.pending) w.pending ≡ some first
        → (join opts first).problem ≡ some p
        → walk_started compute fuel opts w ≡ some (join opts first)
    unfolding walk_started
    started_stop first p e e' = simp (walk_started, e, e')

    pub started_next :
        (first : Record)
        → held (lowest w.pending) w.pending ≡ some first
        → (join opts first).problem ≡ none
        → walk_started compute fuel opts w
          ≡ walk_from compute fuel (record w { next = lowest w.pending }) (joined opts w first)
    unfolding walk_started
    started_next first e e' = simp (walk_started, e, e')

  module _ (items : List Item) (opts : VerifyOpts) where
    pub verify_broke :
        (p : Problem)
        → fill compute reorder_window (start_walk items) items ≡ broke p
        → verify compute items opts ≡ some (record empty_result { problem = some p })
    unfolding verify
    verify_broke p f = rw (verify, f)

    pub verify_next :
        (w : Walk)
        → fill compute reorder_window (start_walk items) items ≡ filled w
        → verify compute items opts ≡ walk_started compute (suc (length items)) opts w
    unfolding verify
    verify_next w f = rw (verify, f)
