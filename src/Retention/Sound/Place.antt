-- ===== src/Retention/Sound/Place.antt =====
-- Where the chain is cut: `auditPrefix` of internal/retention/retention.go.
use nodary.Prelude.{
  ℕ, ◌<◌, ◌≤◌, ◌⊎◌, ◌≡◌, inl, inr, refl, ap, none, some, List, [], ◌∷◌, ◌++◌, arith, All,
  Bool-cases, Option-cases, leb,
}
use nodary.Audit.Record.{Record}
use nodary.Retention.{first_young, last_seq, keep_from}

-- The rows, cut in front of the record from which on all are kept.
pub record Cut (cutoff k : ℕ) (rows : List Record) : Type 0 where
  pub removed : List Record
  pub first : Record
  pub kept : List Record
  pub split : rows ≡ removed ++ first ∷ kept
  pub old : All (λ r. r.ts < cutoff) removed
  pub at_cut : first.seq ≡ k
  pub needed : (cutoff ≤ first.ts) ⊎ (kept ≡ [])

Cut-cons :
    (cutoff k : ℕ) (r : Record) (rows : List Record)
    → r.ts < cutoff
    → Cut cutoff k rows
    → Cut cutoff k (r ∷ rows)
Cut-cons cutoff k r rows lt c = record {
  removed = r ∷ c.removed;
  first = c.first;
  kept = c.kept;
  split = ap (λ (t : List Record). r ∷ t) c.split;
  old = (lt, c.old);
  at_cut = c.at_cut;
  needed = c.needed;
}

Cut-young :
    (cutoff k : ℕ) (rows : List Record) → first_young cutoff rows ≡ some k → Cut cutoff k rows
unfolding first_young
Cut-young cutoff k [] h = absurd (cc h)
Cut-young cutoff k (r ∷ rows) h = elim (Bool-cases (leb cutoff r.ts)) [
  | inl young ↦ record {
    removed = [];
    first = r;
    kept = rows;
    split = refl;
    old = tt;
    at_cut = ground arith;
    needed = inl (ground (arith, young));
  }
  | inr old ↦ Cut-cons cutoff k r rows (ground arith) (Cut-young cutoff k rows (ground arith))
]

Cut-last :
    (cutoff k : ℕ) (rows : List Record)
    → first_young cutoff rows ≡ none
    → last_seq rows ≡ some k
    → Cut cutoff k rows
unfolding first_young last_seq
Cut-last cutoff k [] y h = absurd (cc h)
Cut-last cutoff k (r ∷ []) y h = record {
  removed = [];
  first = r;
  kept = [];
  split = refl;
  old = tt;
  at_cut = cc h;
  needed = inr refl;
}
Cut-last cutoff k (r ∷ s ∷ rows) y h =
    Cut-cons cutoff k r (s ∷ rows) (ground arith) (Cut-last cutoff k (s ∷ rows) (ground arith) h)

pub Cut-keep_from :
    (cutoff k : ℕ) (rows : List Record) → keep_from cutoff rows ≡ some k → Cut cutoff k rows
unfolding keep_from
Cut-keep_from cutoff k rows h = elim (Option-cases (first_young cutoff rows)) [
  | inl y ↦ Cut-last cutoff k rows y (ground (arith, y))
  | inr (n, y) ↦ Cut-young cutoff k rows (ground (arith, y))
]
