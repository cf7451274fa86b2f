-- ===== src/Audit/Verify.antt =====
-- `verify` of internal/audit/verify.go: the walk over records that arrive almost in order.
-- `compute` is `Record.Compute`: the hash that a record should carry, or `none` for its error.
-- A Go map from sequence numbers to records is a list in the order of arrival; the code reads it by
-- key, by its size and by its lowest key.
mod Steps
pub mod Spec
pub mod Fuel
mod Reading
mod Loop
pub mod Sound
pub mod Complete
use nodary.Prelude.{
  ℕ, zero, suc, ◌+◌, String, Bool, true, false, ◌&&◌, ◌||◌, not, Option, none, some, List, [], ◌∷◌,
  ◌++◌, ltb, leb, length, ◌==◌, str_eq, if◌then◌else◌,
}
use nodary.Audit.Record.{Record, genesis_prev_hash}

pub data Kind : Type 0 where
  altered broken gap out_of_order not_genesis not_anchored mixed_installs clock_went_back : Kind
  unreadable : Kind

-- The text of `Detail` is left out.
pub record Problem : Type 0 where
  pub seq : ℕ
  pub kind : Kind

pub record Result : Type 0 where
  pub records : ℕ
  pub first_seq : ℕ
  pub last_seq : ℕ
  pub problem : Option Problem  -- the field `Break`
  pub warnings : List Problem
  pub fragment : Bool
  pub anchored : Bool
  pub first_prev_hash : String

abbrev pub empty_result : Result
empty_result = record {
  records = 0;
  first_seq = 0;
  last_seq = 0;
  problem = none;
  warnings = [];
  fragment = false;
  anchored = false;
  first_prev_hash = "";
}

pub record Anchor : Type 0 where
  pub seq : ℕ
  pub hash : String

pub record VerifyOpts : Type 0 where
  pub require_genesis : Bool
  pub anchor : Option Anchor

abbrev pub reorder_window : ℕ
reorder_window = 1024

-- One item of the source: a record, or a line or row that could not be read.
pub data Item : Type 0 where
  readable : Record → Item
  damaged : Item

-- The variables of `verify`. `prev` is `none` until the first record is accepted, which is when
-- `started` is set.
pub record Walk : Type 0 where
  pub pending : List Record
  pub prev : Option Record
  pub install : String
  pub next : ℕ
  pub source_err : Bool
  pub items : List Item  -- what `pull` has not yet returned

unfoldable pub held : ℕ → List Record → Option Record
held n [] = none
held n (r ∷ rs) = if r.seq == n then some r else held n rs

unfoldable pub delete : ℕ → List Record → List Record
delete n [] = []
delete n (r ∷ rs) = if r.seq == n then rs else r ∷ delete n rs

unfoldable pub lowest_from : ℕ → List Record → ℕ
lowest_from out [] = out
lowest_from out (r ∷ rs) = lowest_from (if (out == 0) || ltb r.seq out then r.seq else out) rs

unfoldable pub lowest : List Record → ℕ
unfolding lowest_from
lowest rs = lowest_from 0 rs

-- What becomes of one record that is read: dropped as a repeat, held, or a break.
pub data Offer : Type 0 where
  repeat hold : Offer
  breaks : Problem → Offer

pub data Fill : Type 0 where
  filled : Walk → Fill
  broke : Problem → Fill

abbrev problem_at : ℕ → Kind → Problem
problem_at n k = record { seq = n; kind = k }

abbrev pub stop_with : Result → ℕ → Kind → Result
stop_with res n k = record res { problem = some (problem_at n k) }

-- The outcomes of `sameRecord`: `bad` is its problem.
pub data Same : Type 0 where
  same differs : Same
  bad : Problem → Same

abbrev push : Walk → Record → Walk
push w r = record w { pending = w.pending ++ r ∷ [] }

-- The start of the walk, before any record is read.
abbrev pub start_walk : List Item → Walk
start_walk items = record {
  pending = [];
  prev = none;
  install = "";
  next = 0;
  source_err = false;
  items = items;
}

-- The test of the first record against the caller's expectation, and the fields of the result that
-- it sets.
unfoldable pub join : VerifyOpts → Record → Result
join opts first = elim opts.anchor [
  | some a ↦
      if not (first.seq == a.seq + 1) || not (str_eq first.prev_hash a.hash)
      then stop_with empty_result first.seq not_anchored
      else record empty_result { anchored = true; fragment = not (first.seq == 1) }
  | none ↦
      if (first.seq == 1) || opts.require_genesis
      then if not (first.seq == 1) || not (str_eq first.prev_hash genesis_prev_hash)
        then stop_with empty_result first.seq not_genesis
        else empty_result
      else record empty_result { fragment = true }
]

-- The loop's end: nothing is held at the next sequence number.
unfoldable pub finish : Walk → Result → Result
finish w res =
    if w.source_err
    then stop_with res w.next unreadable
    else elim w.pending [ [] ↦ res | r ∷ rs ↦ stop_with res w.next gap ]

-- The state after a record is accepted.
unfoldable pub settle : Walk → Record → Walk
settle w r = record w {
  pending = delete w.next w.pending;
  prev = some r;
  install = elim w.prev [ none ↦ r.install | some p ↦ w.install ];
  next = w.next + 1;
}

clock_back : Walk → Record → Bool
clock_back w r = elim w.prev [ none ↦ false | some p ↦ ltb r.ts p.ts ]

-- The counts and the clock's warning.
unfoldable pub count : Walk → Record → Result → Result
unfolding clock_back
count w r res = record res {
  warnings =
      if ltb 0 res.records && clock_back w r
      then res.warnings ++ problem_at r.seq clock_went_back ∷ []
      else res.warnings;
  records = res.records + 1;
  last_seq = r.seq;
}

module _ (compute : Record → Option String) where
  unfoldable pub same_record : Record → Record → Same
  same_record a b = elim (compute b) [
    | none ↦ bad (problem_at b.seq unreadable)
    | some computed ↦
        if not (str_eq computed b.hash)
        then bad (problem_at b.seq altered)
        else if str_eq a.hash b.hash
        then same
        else differs
  ]

  repeat_or_break : Record → Record → Offer
  repeat_or_break a r = elim (same_record a r) [
    | bad p ↦ breaks p
    | same ↦ repeat
    | differs ↦ breaks (problem_at r.seq out_of_order)
  ]

  -- The body of `fill`, for one record that was read.
  unfoldable pub offer : Walk → Record → Offer
  unfolding repeat_or_break
  offer w r = elim (held r.seq w.pending) [
    | some other ↦
        if not (str_eq other.install r.install)
        then breaks (problem_at r.seq mixed_installs)
        else repeat_or_break other r
    | none ↦ elim w.prev [
      | none ↦ hold
      | some prev ↦
          if ltb r.seq w.next
          then if r.seq == prev.seq
            then repeat_or_break prev r
            else breaks (problem_at r.seq out_of_order)
          else hold
    ]
  ]

  -- `fill`: reads until `n` records are held, the source ends, or a line cannot be read.
  unfoldable pub fill : ℕ → Walk → List Item → Fill
  fill n w [] = filled (record w { items = [] })
  fill n w (damaged ∷ rest) =
      if leb n (length w.pending)
      then filled (record w { items = damaged ∷ rest })
      else filled (record w { source_err = true; items = rest })
  fill n w (readable r ∷ rest) =
      let read : Fill = elim (offer w r) [
        | repeat ↦ fill n w rest
        | hold ↦ fill n (push w r) rest
        | breaks p ↦ broke p
      ] in
      if leb n (length w.pending) then filled (record w { items = readable r ∷ rest }) else read

  self_check : Record → Option Kind
  self_check r = elim (compute r) [
    | none ↦ some unreadable
    | some computed ↦ if str_eq computed r.hash then none else some altered
  ]

  -- The tests of the loop's body on the record at the next sequence number.
  unfoldable pub inspect : Walk → Record → Option Kind
  unfolding self_check
  inspect w r = elim w.prev [
    | none ↦ self_check r
    | some prev ↦
        if not (str_eq r.install w.install)
        then some mixed_installs
        else if not (str_eq r.prev_hash prev.hash)
        then some broken
        else self_check r
  ]

  -- The loop, on fuel; `none` means that the fuel ran out.
  unfoldable pub walk_from : ℕ → Walk → Result → Option Result
  walk_from zero w res = none
  walk_from (suc fuel) w res = elim (held w.next w.pending) [
    | none ↦ some (finish w res)
    | some r ↦ elim (inspect w r) [
      | some k ↦ some (stop_with res r.seq k)
      | none ↦ elim (fill reorder_window (settle w r) w.items) [
        | broke p ↦ some (record (count w r res) { problem = some p })
        | filled w' ↦ walk_from fuel w' (count w r res)
      ]
    ]
  ]

  -- What follows the first `fill`: the start, its test, and the loop.
  unfoldable pub walk_started : ℕ → VerifyOpts → Walk → Option Result
  walk_started fuel opts w = elim (held (lowest w.pending) w.pending) [
    | none ↦ some (if w.source_err then stop_with empty_result 1 unreadable else empty_result)
    | some first ↦
        let res = join opts first in
        elim res.problem [
          | some p ↦ some res
          | none ↦
              walk_from fuel (record w { next = lowest w.pending })
                (record res { first_seq = lowest w.pending; first_prev_hash = first.prev_hash })
        ]
  ]

  unfoldable pub verify : List Item → VerifyOpts → Option Result
  verify items opts = elim (fill reorder_window (start_walk items) items) [
    | broke p ↦ some (record empty_result { problem = some p })
    | filled w ↦ walk_started (suc (length items)) opts w
  ]
