-- ===== src/Audit/Mirror.antt =====
-- The comparison of a mirror file with the database: `VerifyFile`, `VerifyMirror`, `hashAt`,
-- `Compare`, `bySequence` and `Assessment` of internal/audit/verify.go. A file is the list of what
-- `fileRecords` yields for it, and the rows are in the order of their sequence numbers.
pub mod Counts
pub mod Ordered
pub mod Runs
pub mod Merge
pub mod Pairs
use nodary.Prelude.{
  ℕ, zero, suc, ◌+◌, ◌-◌, String, Bool, true, false, ◌&&◌, ◌||◌, not, Option, none, some, List, [],
  ◌∷◌, ◌++◌, ltb, leb, length, ◌==◌, str_eq, if◌then◌else◌,
}
use nodary.Audit.Record.{Record}
use nodary.Audit.Verify.{
  Item, readable, damaged, Result, VerifyOpts, Anchor, not_anchored, held, delete, lowest,
  reorder_window, verify, stop_with,
}

pub record InstallMismatch : Type 0 where
  pub database : String
  pub file : String

pub record Comparison : Type 0 where
  pub installs : Option InstallMismatch
  pub diverged : ℕ
  pub behind : ℕ
  pub ahead : ℕ

abbrev pub empty_comparison : Comparison
empty_comparison = record { installs = none; diverged = 0; behind = 0; ahead = 0 }

-- The inner loop of `bySequence`: what is held and what is still to be read, or an error.
pub data Gathered : Type 0 where
  gathered : List Record → List Item → Gathered
  failed : Gathered

abbrev pub is_repeat : Record → List Record → Bool
is_repeat r pending = elim (held r.seq pending) [ none ↦ false | some h ↦ str_eq h.hash r.hash ]

abbrev pub hold_last : Record → List Record → List Record
hold_last r pending = delete r.seq pending ++ r ∷ []

unfoldable pub gather : ℕ → List Record → List Item → Gathered
gather window pending [] = gathered pending []
gather window pending (damaged ∷ rest) =
    if ltb (length pending) window then failed else gathered pending (damaged ∷ rest)
gather window pending (readable r ∷ rest) =
    let again = gather window pending rest in
    let further = gather window (hold_last r pending) rest in
    if ltb (length pending) window
    then if is_repeat r pending then again else further
    else gathered pending (readable r ∷ rest)

-- `bySequence`, on fuel. An error ends the sequence.
unfoldable pub sequence_from : ℕ → ℕ → List Record → List Item → Option (List Item)
sequence_from zero window pending items = none
sequence_from (suc fuel) window pending items = elim (gather window pending items) [
  | failed ↦ some (damaged ∷ [])
  | gathered held_now rest ↦ elim (held (lowest held_now) held_now) [
    | none ↦ some []
    | some r ↦ elim (sequence_from fuel window (delete (lowest held_now) held_now) rest) [
      | none ↦ none
      | some out ↦ some (readable r ∷ out)
    ]
  ]
]

unfoldable pub by_sequence : ℕ → List Item → Option (List Item)
by_sequence window items = sequence_from (suc (length items)) window [] items

-- What `nextFile` comes to: a record and what follows it, the end, an error, or the two
-- installations that differ.
pub data NextFile : Type 0 where
  at_record : Record → List Item → NextFile
  at_end : NextFile
  unreadable_line : NextFile
  other_install : InstallMismatch → NextFile

unfoldable pub next_file : String → ℕ → List Item → NextFile
next_file install last [] = at_end
next_file install last (damaged ∷ rest) = unreadable_line
next_file install last (readable r ∷ rest) =
    let further = next_file install last rest in
    if not (str_eq install "") && not (str_eq r.install install)
    then other_install (record { database = install; file = r.install })
    else if leb r.seq last
    then further
    else at_record r rest

pub data Compared : Type 0 where
  compared : Comparison → Compared
  unreadable_file : Compared

abbrev pub add_behind : Comparison → Comparison
add_behind c = record c { behind = c.behind + 1 }

abbrev pub add_ahead : Comparison → Comparison
add_ahead c = record c { ahead = c.ahead + 1 }

-- Two records of one number.
unfoldable pub meet : Record → Record → Comparison → Comparison
meet row r c =
    if not (str_eq row.hash r.hash) && (c.diverged == 0) then record c { diverged = row.seq } else c

-- The install of the row that was read last.
unfoldable pub last_install : String → List Record → String
last_install install [] = install
last_install install (row ∷ rows) = row.install

-- The variables of `Compare`: the rows from the current one on, the current record of the file, and
-- what the file has after it.
pub record Merging : Type 0 where
  pub install : String
  pub rows : List Record
  pub file : Option Record
  pub items : List Item
  pub cmp : Comparison

-- What a round of the loops comes to.
pub data Turn : Type 0 where
  turned : Merging → Turn
  stops : Compared → Turn

-- `nextFile` on the variables, with `mismatchOrError`.
unfoldable pub advance : String → List Record → ℕ → List Item → Comparison → Turn
advance install rows last items c = elim (next_file install last items) [
  | at_record r rest ↦
      turned (record { install = install; rows = rows; file = some r; items = rest; cmp = c })
  | at_end ↦ turned (record { install = install; rows = rows; file = none; items = []; cmp = c })
  | unreadable_line ↦ stops unreadable_file
  | other_install m ↦ stops (compared (record empty_comparison { installs = some m }))
]

-- A round of whichever of the three loops runs.
unfoldable pub turn : String → List Record → Option Record → List Item → Comparison → Turn
turn install [] none items c = stops (compared c)
turn install [] (some r) items c = advance install [] r.seq items (add_ahead c)
turn install (row ∷ rows) none items c = turned (record {
  install = last_install install rows;
  rows = rows;
  file = none;
  items = items;
  cmp = add_behind c;
})
turn install (row ∷ rows) (some r) items c =
    if ltb row.seq r.seq
    then turned (record {
      install = last_install install rows;
      rows = rows;
      file = some r;
      items = items;
      cmp = add_behind c;
    })
    else if ltb r.seq row.seq
    then advance install (row ∷ rows) r.seq items (add_ahead c)
    else advance (last_install install rows) rows r.seq items (meet row r c)

-- The loops, on fuel.
unfoldable pub merge : ℕ → Turn → Option Compared
merge fuel (stops out) = some out
merge zero (turned m) = none
merge (suc fuel) (turned m) = merge fuel (turn m.install m.rows m.file m.items m.cmp)

-- `Compare`.
unfoldable pub compare_rows : List Record → List Item → Option Compared
compare_rows rows file = elim (by_sequence reorder_window file) [
  | none ↦ none
  | some items ↦
      merge (suc (length rows + length items))
        (advance (last_install "" rows) rows 0 items empty_comparison)
]

-- `hashAt`: the hash of the row with the number.
unfoldable pub hash_at : List Record → ℕ → Option String
hash_at rows n = if ltb n 1 then none else elim (held n rows) [ none ↦ none | some r ↦ some r.hash ]

-- What `VerifyMirror` makes of the result of `VerifyFile`.
unfoldable pub anchor_fragment : List Record → Result → Result
anchor_fragment rows res = elim res.problem [
  | some p ↦ res
  | none ↦ if not res.fragment then res else elim (hash_at rows (res.first_seq - 1)) [
    | none ↦ res
    | some h ↦
        if not (str_eq h res.first_prev_hash)
        then stop_with res res.first_seq not_anchored
        else record res { anchored = true }
  ]
]

module _ (compute : Record → Option String) where
  unfoldable pub verify_file : List Item → Option Anchor → Option Result
  verify_file items anchor =
      verify compute items (record { require_genesis = false; anchor = anchor })

  unfoldable pub verify_mirror : Option (List Record) → List Item → Option Result
  verify_mirror db items = elim (verify_file items none) [
    | none ↦ none
    | some res ↦ elim db [ none ↦ some res | some rows ↦ some (anchor_fragment rows res) ]
  ]

pub record Assessment : Type 0 where
  pub chain : Option Result
  pub mirror : Option Result
  pub comparison : Option Comparison

abbrev pub is_sound : Option Result → Bool
is_sound none = true
is_sound (some res) = elim res.problem [ none ↦ true | some p ↦ false ]

abbrev pub agrees : Option Comparison → Bool
agrees none = true
agrees (some c) = elim c.installs [ none ↦ (c.diverged == 0) && (c.ahead == 0) | some m ↦ false ]

-- `OK`.
unfoldable pub is_ok : Assessment → Bool
is_ok a = is_sound a.chain && (is_sound a.mirror && agrees a.comparison)

unfoldable pub comparable : Assessment → Bool
comparable a = elim a.chain [
  | none ↦ false
  | some c ↦ elim a.mirror [ none ↦ false | some m ↦ is_sound (some c) && is_sound (some m) ]
]
