-- ===== src/Audit/Verify/Sound.antt =====
-- What a result of `verify` of internal/audit/verify.go without a break says of the source.
use nodary.Prelude.{
  ℕ, zero, suc, String, ◌≡◌, ◌≢◌, ◌⊎◌, inl, inr, refl, sym, ◌∙◌, false, Option, none, some, List,
  [], ◌∷◌, arith, length, subst, Option-cases, eq_iff, not, ◌==◌,
}
use nodary.Audit.Record.{Record, genesis_prev_hash}
use nodary.Audit.Verify.{
  Result, empty_result, reorder_window, start_walk, Item, readable, damaged, Walk, held, filled,
  fill, inspect, settle, count, walk_from, lowest, lowest_from, join, VerifyOpts, verify,
}
use nodary.Audit.Verify.Spec.{AllRead, EachRead, Holds, Covers, Joins, Verified}
use nodary.Audit.Verify.Reading.{
  held-All, fill-taken, Reads, fill-Reads, fill-reads_all, held-seq, Covers-Delivers,
}
use nodary.Audit.Verify.Steps.{
  Fill-cases, no_fuel, stopped, joined, round_stop, round_broke, round_next, started_empty,
  started_stop, started_next, verify_broke, verify_next,
}
use nodary.Audit.Verify.Loop.{
  taken_round, inspect_self, Continues, walk_from-Continues, settled_prev, settled_next, count_last,
  Kept-back,
}

-- The lowest number is held, so the walk finds its start.
held-lowest_from :
    (out : ℕ) (rs : List Record)
    → (lowest_from out rs ≡ out) ⊎ (held (lowest_from out rs) rs ≢ none)
unfolding lowest_from held
held-lowest_from out [] = inl refl
held-lowest_from out (x ∷ rs) = ground (arith, held-lowest_from out rs, held-lowest_from x.seq rs)

held-lowest : (rs : List Record) → held (lowest rs) rs ≡ none → rs ≡ []
unfolding lowest held
held-lowest [] h = refl
held-lowest (x ∷ rs) h = ground (arith, held-lowest_from x.seq rs)

Joins-join :
    (opts : VerifyOpts) (first : Record) → (join opts first).problem ≡ none → Joins opts first
unfolding join
Joins-join opts first h = record {
  anchored = λ a e. ground (arith, eq_iff first.prev_hash a.hash);
  whole = λ e g. ground arith;
  genesis = λ e g. ground (arith, eq_iff first.prev_hash genesis_prev_hash);
}

join_fields :
    (opts : VerifyOpts) (first : Record)
    → (join opts first).problem ≡ none
    → ((join opts first).records ≡ 0) × ((join opts first).fragment ≡ not (first.seq == 1))
unfolding join
join_fields opts first h = ground arith

module _ (compute : Record → Option String) where
  AllRead-none : (items : List Item) → AllRead (λ _. ⊥) items → items ≡ []
  AllRead-none [] a = refl
  AllRead-none (readable r ∷ items) a = absurd a.0
  AllRead-none (damaged ∷ items) a = absurd a

  first_install :
      (w w' : Walk) (r : Record)
      → w.prev ≡ none
      → Reads compute reorder_window (settle w r) w'
      → w'.install ≡ r.install
  unfolding settle
  first_install w w' r e reads = ground (arith, reads.install)

  stopped_clean : (w : Walk) → (stopped w).problem ≡ none → w.source_err ≡ false
  stopped_clean w h = ground arith

  EachRead-later :
      (items others : List Item) (r : Record)
      → EachRead (Holds items) others
      → EachRead (λ c. (c ≡ r) ⊎ Holds items c) others
  EachRead-later items [] r a = tt
  EachRead-later items (readable x ∷ others) r a = (inr a.0, EachRead-later items others r a.1)
  EachRead-later items (damaged ∷ others) r a = EachRead-later items others r a

  EachRead-Holds : (items : List Item) → EachRead (Holds items) items
  EachRead-Holds [] = tt
  EachRead-Holds (readable r ∷ items) =
      (inl refl, EachRead-later items items r (EachRead-Holds items))
  EachRead-Holds (damaged ∷ items) = EachRead-Holds items

  -- Nothing was held after the first reading, and nothing was damaged: the source was empty.
  nothing_read :
      (items : List Item) (w : Walk)
      → fill compute reorder_window (start_walk items) items ≡ filled w
      → w.pending ≡ []
      → w.source_err ≡ false
      → items ≡ []
  nothing_read items w f e c =
      let reads = fill-Reads compute reorder_window (start_walk items) items w f in
      let none_left : AllRead (λ _. ⊥) w.items = elim (reads.enough c) [
        | inl many ↦ absurd (ground (arith, many))
        | inr done ↦ rw done tt
      ] in
      AllRead-none items
        (fill-reads_all compute (λ _. ⊥) (λ a b q d. q) reorder_window (start_walk items) items w
          (λ p q. cc) f c (rw e tt, none_left)).1

  -- The round that accepts the first record, from a state with no last one.
  first_round :
      (T : Record → Type 0) (w : Walk) (fuel : ℕ) (first : Record) (res out : Result)
      → w.prev ≡ none
      → held w.next w.pending ≡ some first
      → walk_from compute fuel w res ≡ some out
      → out.problem ≡ none
      → (compute first ≡ some first.hash)
        × (w' : Walk) × (fill compute reorder_window (settle w first) w.items ≡ filled w')
        × Continues compute T first.install first.seq first.hash w' (count w first res) out
  first_round T w zero first res out e h run good = absurd (no_fuel compute w res out run)
  first_round T w (suc fuel) first res out e h run good =
      elim (Option-cases (inspect compute w first)) [
        | inr (k, i) ↦ absurd (cc (round_stop compute fuel w res first h k i))
        | inl i ↦ elim (Fill-cases (fill compute reorder_window (settle w first) w.items)) [
          | inl (q, f) ↦ absurd (cc (round_broke compute fuel w res first h q i f))
          | inr (w', f) ↦
              let reads = fill-Reads compute reorder_window (settle w first) w.items w' f in
              let c =
                walk_from-Continues compute T fuel w' (count w first res) out first
                  (settled_prev compute T w w' first reads)
                  (settled_next compute T w w' first reads h) reads.enough
                  (count_last compute T w first res)
                  (sym (round_next compute fuel w res first h w' i f) ∙ run) good in
              (
                inspect_self compute T w first i,
                w',
                f,
                subst (λ i. Continues compute T i first.seq first.hash w' (count w first res) out)
                    (first_install w w' first e reads) c,
              )
        ]
      ]

  started_Verified :
      (items : List Item) (opts : VerifyOpts) (w : Walk) (fuel : ℕ) (first : Record) (out : Result)
      → fill compute reorder_window (start_walk items) items ≡ filled w
      → held (lowest w.pending) w.pending ≡ some first
      → (join opts first).problem ≡ none
      → walk_from compute fuel (record w { next = lowest w.pending }) (joined opts w first)
        ≡ some out
      → out.problem ≡ none
      → Verified compute items opts out
  unfolding count settle
  started_Verified items opts w fuel first out f h j run good =
      let reads = fill-Reads compute reorder_window (start_walk items) items w f in
      let w₀ : Walk = record w { next = lowest w.pending } in
      let (first_hash, w', f', c) =
        first_round (Holds items) w₀ fuel first (joined opts w first) out reads.prev h run good in
      let k = Kept-back compute (Holds items) w₀ w' first c.rest h f' c.clean c.kept in
      let (empty, fragment) = join_fields opts first j in
      record {
        first = first;
        rest = c.rest;
        joins = Joins-join opts first j;
        first_hash = first_hash;
        links = c.links;
        covers =
            (fill-reads_all compute (Covers compute (first ∷ c.rest))
              (λ a b. Covers-Delivers compute (first ∷ c.rest) a b) reorder_window
              (start_walk items) items w (λ p q. cc) f
              ((fill-Reads compute reorder_window (settle w₀ first) w₀.items w' f').clean c.clean)
              k).1;
        taken =
            let (a, b) =
              fill-taken compute (Holds items) reorder_window (start_walk items) items w f tt
                (EachRead-Holds items) in
            let (a', b') = taken_round compute (Holds items) w₀ w' first h f' a b in
            (held-All compute (Holds items) w₀.next w.pending first h a, c.taken a' b');
        first_seq = c.first_seq ∙ sym (held-seq compute (lowest w.pending) w.pending first h);
        last_seq = c.last_seq;
        records = omega (arith, c.records, empty);
        fragment = c.fragment ∙ fragment;
      }

  -- If the walk ends without a break, then the source was empty, or it holds the records of a chain
  -- that begins where the caller expects: each record of the chain stands in the source, each line
  -- of the source could be read and delivers a record of the chain, and the counts of the result are
  -- those of the chain.
  pub verify-Verified :
      (items : List Item) (opts : VerifyOpts) (out : Result)
      → verify compute items opts ≡ some out
      → out.problem ≡ none
      → ((items ≡ []) × (out ≡ empty_result)) ⊎ Verified compute items opts out
  verify-Verified items opts out run good =
      elim (Fill-cases (fill compute reorder_window (start_walk items) items)) [
        | inl (p, f) ↦ absurd (cc (verify_broke compute items opts p f))
        | inr (w, f) ↦
            let started = sym (verify_next compute items opts w f) ∙ run in
            elim (Option-cases (held (lowest w.pending) w.pending)) [
              | inl h ↦
                  let out_is : stopped w ≡ out =
                    cc (started_empty compute (suc (length items)) opts w h) in
                  let clean = stopped_clean w (rw out_is good) in
                  inl
                    (nothing_read items w f (held-lowest w.pending h) clean, sym out_is ∙ rw clean)
              | inr (first, h) ↦ elim (Option-cases (join opts first).problem) [
                | inr (p, j) ↦
                    absurd (cc (started_stop compute (suc (length items)) opts w first p h j))
                | inl j ↦ inr (
                    started_Verified items opts w (suc (length items)) first out f h j
                      (sym (started_next compute (suc (length items)) opts w first h j) ∙ started)
                      good)
              ]
            ]
      ]
