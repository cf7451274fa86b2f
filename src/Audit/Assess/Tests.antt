-- ===== src/Audit/Assess/Tests.antt =====
-- A mirror that holds the second of two records, and one that holds another record in its place.
use nodary.Prelude.{◌≡◌, ◌↔◌, refl, true, none, some, List, [], ◌∷◌, All, inl, arith}
use nodary.Audit.Record.{Record, compute}
use nodary.Audit.Verify.{readable, held, delete, lowest, lowest_from}
use nodary.Audit.Database.{Database, prune_anchor}
use nodary.Audit.Database.Sound.{IsSound}
use nodary.Audit.Mirror.{
  compared, compare_rows, agrees, Assessment, is_ok, by_sequence, sequence_from, gather, next_file,
  merge, advance, turn, meet, last_install,
}
use nodary.Audit.Mirror.Counts.{missing, first_differing}
use nodary.Audit.Mirror.Merge.{compare_rows-counts}
use nodary.Audit.Mirror.Pairs.{InRows, agrees_iff}
use nodary.Audit.Assess.{assessed, assess}
use nodary.Audit.Assess.Segment.{assess-segment, mirror_records}
use nodary.Audit.Tests.{digest, first, second, one_record}

abbrev rows : List Record
rows = first ∷ second ∷ []

abbrev two_records : Database
two_records = record one_record { audit = rows }

-- The third record is held twice and comes first; the rows do not have it.
abbrev third : Record
third = record second { seq = 3; hash = "3333" }

compare_rows_disordered :
    compare_rows rows (readable third ∷ readable second ∷ readable third ∷ [])
    ≡ some (compared (record { installs = none; diverged = 0; behind = 1; ahead = 1 }))
unfolding compare_rows by_sequence sequence_from gather next_file merge advance turn meet
    last_install held delete lowest lowest_from
compare_rows_disordered = refl

compare_rows-counts_example :
    compare_rows rows (readable second ∷ [])
    ≡ some (compared (record { installs = none; diverged = 0; behind = 1; ahead = 0 }))
unfolding missing first_differing held
compare_rows-counts_example =
    compare_rows-counts "ins_a" rows (second ∷ []) (refl, (refl, tt)) (refl, tt)
      (omega arith, (omega arith, tt)) (omega arith, tt)

agrees_iff_example :
    (agrees (some (record { installs = none; diverged = 0; behind = 1; ahead = 0 })) ≡ true)
    ↔ All (InRows rows) (second ∷ [])
agrees_iff_example =
    agrees_iff "ins_a" rows (second ∷ [])
      (record { installs = none; diverged = 0; behind = 1; ahead = 0 }) (refl, (refl, tt))
      (refl, tt) (omega arith, (omega arith, tt)) (omega arith, tt) compare_rows-counts_example

two_records-IsSound : IsSound digest two_records
unfolding prune_anchor compute
two_records-IsSound = record {
  row = record {
    id = "ins_a";
    created_at = 5000000;
    pruned_through_seq = none;
    pruned_through_hash = none;
  };
  installed = refl;
  anchor = none;
  anchored = refl;
  links = (refl, refl, refl, refl, (refl, refl, refl, refl, tt));
  kept = λ e. absurd (cc e);
}

assess-segment_example :
    (a : Assessment) × (assess digest (some two_records) none (some (readable second ∷ []))
      ≡ some (assessed a))
    × (is_ok a ≡ true)
    × (mirror_records a ≡ some 1)
    × (a.comparison ≡ some (record { installs = none; diverged = 0; behind = 1; ahead = 0 }))
unfolding two_records-IsSound
assess-segment_example =
    assess-segment digest two_records two_records-IsSound (first ∷ []) second [] [] refl (inl refl)
