-- ===== src/Audit/Mirror/Merge.antt =====
-- What `Compare` of internal/audit/verify.go counts, against counts of each side on its own.
use nodary.Prelude.{
  ℕ, zero, suc, ◌+◌, ◌<◌, ◌≤◌, ◌≡◌, refl, ap, ◌∙◌, String, true, false, ◌&&◌, not, Option, none,
  some, List, [], ◌∷◌, ltb, leb, length, str_eq, arith, All, map, length-map, Bool-cases, eq_iff,
  ◌⊎◌, inl, inr,
}
use nodary.Audit.Record.{Record}
use nodary.Audit.Verify.{Item, readable, reorder_window}
use nodary.Audit.Mirror.Counts.{
  rising, missing, first_differing, Ascending, rising-Ascending, total, counts_same, total_done,
  total_behind, total_ahead, total-meet,
}
use nodary.Audit.Mirror.Ordered.{by_sequence-Ascending}
use nodary.Audit.Mirror.{
  Comparison, empty_comparison, next_file, compared, add_behind, add_ahead, meet, compare_rows,
  last_install, merge, Turn, turned, advance, turn,
}

-- The current record of a file and those that follow it.
abbrev current : Option Record → List Record → List Record
current none fs = []
current (some r) fs = r ∷ rising r.seq fs

abbrev size : Option Record → List Record → ℕ
size none fs = 0
size (some r) fs = suc (length fs)

abbrev IsOwn : String → String → Type 0
IsOwn i install = (install ≡ "") ⊎ (install ≡ i)

abbrev pub AllOf : String → List Record → Type 0
AllOf i = All (λ r. r.install ≡ i)

last_install-IsOwn :
    (i install : String) (rows : List Record)
    → IsOwn i install
    → AllOf i rows
    → IsOwn i (last_install install rows)
unfolding last_install
last_install-IsOwn i install [] o a = o
last_install-IsOwn i install (r ∷ rows) o a = inr a.0

-- Where the file stands after `advance`.
record Advanced (i : String) (install : String) (rows : List Record) (last : ℕ) (fs : List Record)
    (c : Comparison) : Type 0 where
  file : Option Record
  rest : List Record
  moved :
      advance install rows last (map readable fs) c
      ≡ turned (record {
        install = install;
        rows = rows;
        file = file;
        items = map readable rest;
        cmp = c;
      })
  rises : current file rest ≡ rising last fs
  own : AllOf i rest
  smaller : size file rest ≤ length fs

advance-rising :
    (i install : String) (rows : List Record) (last : ℕ) (fs : List Record) (c : Comparison)
    → IsOwn i install
    → AllOf i fs
    → Advanced i install rows last fs c
unfolding advance next_file rising
advance-rising i install rows last [] c o a = record {
  file = none;
  rest = [];
  moved = refl;
  rises = refl;
  own = tt;
  smaller = omega arith;
}
advance-rising i install rows last (r ∷ fs) c o a =
    let pair : (not (str_eq install "") && not (str_eq r.install install)) ≡ false =
      own_install o a.0 in
    elim (Bool-cases (leb r.seq last)) [
      | inl e ↦
          let x = advance-rising i install rows last fs c o a.1 in
          record {
            file = x.file;
            rest = x.rest;
            moved = rw (advance, next_file, pair, e) x.moved;
            rises = rw (rising, e) x.rises;
            own = x.own;
            smaller = omega (arith, x.smaller);
          }
      | inr e ↦ record {
        file = some r;
        rest = fs;
        moved = rw (advance, next_file, pair, e);
        rises = rw (rising, e);
        own = a.1;
        smaller = omega arith;
      }
    ]
  where
    own_install :
        IsOwn i install
        → r.install ≡ i
        → (not (str_eq install "") && not (str_eq r.install install)) ≡ false
    own_install (inl p) q = ground (arith, p, eq_iff install "")
    own_install (inr p) q = ground (arith, p, q, eq_iff r.install install)

after_advance :
    (fuel : ℕ) (i install : String) (rows : List Record) (last : ℕ) (fs : List Record)
    (c : Comparison) (x : Advanced i install rows last fs c)
    → merge fuel (
        turned (record {
          install = install;
          rows = rows;
          file = x.file;
          items = map readable x.rest;
          cmp = c;
        }))
      ≡ some (compared (total rows (current x.file x.rest) c))
    → merge fuel (advance install rows last (map readable fs) c)
      ≡ some (compared (total rows (rising last fs) c))
after_advance fuel i install rows last fs c x e =
    ap (λ (t : Turn). merge fuel t) x.moved
    ∙ e
    ∙ ap (λ (z : List Record). some (compared (total rows z c))) x.rises

module _ (install : String) (row : Record) (rows : List Record) (r : Record) (items : List Item)
    (c : Comparison) where
  turn_row :
      ltb row.seq r.seq ≡ true
      → turn install (row ∷ rows) (some r) items c
        ≡ turned (record {
          install = last_install install rows;
          rows = rows;
          file = some r;
          items = items;
          cmp = add_behind c;
        })
  unfolding turn
  turn_row e = rw (turn, e)

  turn_file :
      ltb row.seq r.seq ≡ false
      → ltb r.seq row.seq ≡ true
      → turn install (row ∷ rows) (some r) items c
        ≡ advance install (row ∷ rows) r.seq items (add_ahead c)
  unfolding turn
  turn_file e z = rw (turn, e, z)

  turn_both :
      ltb row.seq r.seq ≡ false
      → ltb r.seq row.seq ≡ false
      → turn install (row ∷ rows) (some r) items c
        ≡ advance (last_install install rows) rows r.seq items (meet row r c)
  unfolding turn
  turn_both e z = rw (turn, e, z)

-- From any round, enough fuel counts what is left of both sides.
merge-total :
    (fuel : ℕ) (i : String) (n : ℕ) (install : String) (rows : List Record) (file : Option Record)
    (fs : List Record) (c : Comparison)
    → IsOwn i install
    → AllOf i rows
    → AllOf i fs
    → Ascending n rows
    → length rows + size file fs < fuel
    → merge fuel (
        turned (record {
          install = install;
          rows = rows;
          file = file;
          items = map readable fs;
          cmp = c;
        }))
      ≡ some (compared (total rows (current file fs) c))
unfolding merge turn
merge-total zero i n install rows file fs c o own_rows own_file up enough =
    absurd (omega (arith, enough))
merge-total (suc fuel) i n install [] none fs c o own_rows own_file up enough =
    ap (λ (z : Comparison). some (compared z)) (total_done c)
merge-total (suc fuel) i n install [] (some r) fs c o own_rows own_file up enough =
    let x = advance-rising i install [] r.seq fs (add_ahead c) o own_file in
    after_advance fuel i install [] r.seq fs (add_ahead c) x (
      merge-total fuel i n install [] x.file x.rest (add_ahead c) o tt x.own tt
        (omega (arith, enough, x.smaller)))
    ∙ ap (λ (z : Comparison). some (compared z)) (total_ahead r [] (rising r.seq fs) c tt)
merge-total (suc fuel) i n install (row ∷ rows) none fs c o own_rows own_file up enough =
    merge-total fuel i row.seq (last_install install rows) rows none fs (add_behind c)
      (last_install-IsOwn i install rows o own_rows.1) own_rows.1 own_file up.1
      (omega (arith, enough))
    ∙ ap (λ (z : Comparison). some (compared z)) (total_behind row rows [] c tt)
merge-total (suc fuel) i n install (row ∷ rows) (some r) fs c o own_rows own_file up enough =
    elim (Bool-cases (ltb row.seq r.seq)) [
      | inl e ↦
          ap (λ (t : Turn). merge fuel t) (turn_row install row rows r (map readable fs) c e)
          ∙ (merge-total fuel i row.seq (last_install install rows) rows (some r) fs (add_behind c)
                (last_install-IsOwn i install rows o own_rows.1) own_rows.1 own_file up.1
                (omega (arith, enough))
              ∙ ap (λ (z : Comparison). some (compared z))
                  (total_behind row rows (r ∷ rising r.seq fs) c
                    (ground (arith, e), rising-Ascending r.seq fs)))
      | inr e ↦ elim (Bool-cases (ltb r.seq row.seq)) [
        | inl z ↦
            ap (λ (t : Turn). merge fuel t) (turn_file install row rows r (map readable fs) c e z)
            ∙ (let x = advance-rising i install (row ∷ rows) r.seq fs (add_ahead c) o own_file in
                after_advance fuel i install (row ∷ rows) r.seq fs (add_ahead c) x (
                  merge-total fuel i n install (row ∷ rows) x.file x.rest (add_ahead c) o own_rows
                    x.own up (omega (arith, enough, x.smaller)))
                ∙ ap (λ (z : Comparison). some (compared z))
                    (total_ahead r (row ∷ rows) (rising r.seq fs) c (ground (arith, z), up.1)))
        | inr z ↦
            ap (λ (t : Turn). merge fuel t) (turn_both install row rows r (map readable fs) c e z)
            ∙ (let own = last_install-IsOwn i install rows o own_rows.1 in
                let x =
                  advance-rising i (last_install install rows) rows r.seq fs (meet row r c) own
                    own_file in
                after_advance fuel i (last_install install rows) rows r.seq fs (meet row r c) x (
                  merge-total fuel i row.seq (last_install install rows) rows x.file x.rest
                    (meet row r c) own own_rows.1 x.own up.1 (omega (arith, enough, x.smaller)))
                ∙ ap (λ (z : Comparison). some (compared z))
                    (total-meet row r rows (rising r.seq fs) c (omega (arith, up.0))
                      (ground (arith, e, z)) up.1 (rising-Ascending r.seq fs)))
      ]
    ]

-- Enough fuel counts all of both sides.
advance-total :
    (fuel : ℕ) (i install : String) (rows fs : List Record)
    → IsOwn i install
    → AllOf i rows
    → AllOf i fs
    → Ascending 0 rows
    → length rows + length fs < fuel
    → merge fuel (advance install rows 0 (map readable fs) empty_comparison)
      ≡ some (compared (total rows (rising 0 fs) empty_comparison))
advance-total fuel i install rows fs o own_rows own_file up enough =
    let x = advance-rising i install rows 0 fs empty_comparison o own_file in
    after_advance fuel i install rows 0 fs empty_comparison x (
      merge-total fuel i 0 install rows x.file x.rest empty_comparison o own_rows x.own up
        (omega (arith, enough, x.smaller)))

rising_all : (n : ℕ) (fs : List Record) → Ascending n fs → rising n fs ≡ fs
unfolding rising
rising_all n [] a = refl
rising_all n (r ∷ fs) a =
    let past : leb r.seq n ≡ false = ground (arith, a.0) in
    rw (rising, past, rising_all r.seq fs a.1)

-- Where the rows and the file's records are of one installation and ascend in their numbers, `Compare`
-- counts the rows that the file lacks, the records that the rows lack, and names the first number at
-- which both hold a record and the hashes differ.
pub compare_rows-counts :
    (i : String) (rows fs : List Record)
    → AllOf i rows
    → AllOf i fs
    → Ascending 0 rows
    → Ascending 0 fs
    → compare_rows rows (map readable fs)
      ≡ some (
          compared (record {
            installs = none;
            diverged = first_differing rows fs;
            behind = missing rows fs;
            ahead = missing fs rows;
          }))
unfolding compare_rows
compare_rows-counts i rows fs own_rows own_file up_rows up_file =
    let items = by_sequence-Ascending reorder_window fs (omega arith) up_file in
    let merged =
      advance-total (suc (length rows + length (map readable fs))) i (last_install "" rows) rows fs
        (last_install-IsOwn i "" rows (inl refl) own_rows) own_rows own_file up_rows
        (omega (arith, length-map readable fs)) in
    rw (compare_rows, items) merged
    ∙ ap (λ (z : List Record). some (compared (total rows z empty_comparison)))
        (rising_all 0 fs up_file)
    ∙ ap (λ (z : Comparison). some (compared z))
        (counts_same (total rows fs empty_comparison)
          (record {
            installs = none;
            diverged = first_differing rows fs;
            behind = missing rows fs;
            ahead = missing fs rows;
          })
          refl refl (omega arith) (omega arith))
