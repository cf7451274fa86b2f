-- ===== src/Audit/Verify/Spec.antt =====
-- What a chain is, stated without the walk: records that follow one another, each carrying the hash
-- that it computes to, and what it is for a line to deliver one of them.
use nodary.Prelude.{
  ℕ, suc, ◌+◌, String, ◌≡◌, ◌⊎◌, true, Option, none, some, List, [], ◌∷◌, length, All, not, ◌==◌,
}
use nodary.Audit.Record.{Record, genesis_prev_hash}
use nodary.Audit.Verify.{Item, readable, damaged, VerifyOpts, Anchor, Result}

-- Every item could be read and holds a record with the property.
abbrev pub AllRead : (Record → Type 0) → List Item → Type 0
AllRead Q [] = Unit
AllRead Q (readable r ∷ items) = Q r × AllRead Q items
AllRead Q (damaged ∷ items) = ⊥

-- Every item that could be read holds a record with the property.
abbrev pub EachRead : (Record → Type 0) → List Item → Type 0
EachRead Q [] = Unit
EachRead Q (readable r ∷ items) = Q r × EachRead Q items
EachRead Q (damaged ∷ items) = EachRead Q items

-- The record stands in the source.
abbrev pub Holds : List Item → Record → Type 0
Holds [] c = ⊥
Holds (readable r ∷ items) c = (c ≡ r) ⊎ Holds items c
Holds (damaged ∷ items) c = Holds items c

-- The first record is where the caller expects the source to begin.
pub record Joins (opts : VerifyOpts) (first : Record) : Type 0 where
  pub anchored :
      (a : Anchor) → opts.anchor ≡ some a → (first.seq ≡ a.seq + 1) × (first.prev_hash ≡ a.hash)
  pub whole : opts.anchor ≡ none → opts.require_genesis ≡ true → first.seq ≡ 1
  pub genesis : opts.anchor ≡ none → first.seq ≡ 1 → first.prev_hash ≡ genesis_prev_hash

module _ (compute : Record → Option String) where
  -- `rs` continues a chain of installation `i` whose last record has number `n` and hash `h`.
  abbrev pub Links : String → ℕ → String → List Record → Type 0
  Links i n h [] = Unit
  Links i n h (r ∷ rs) =
      (r.install ≡ i)
      × (r.seq ≡ suc n)
      × (r.prev_hash ≡ h)
      × (compute r ≡ some r.hash)
      × Links i r.seq r.hash rs

  -- `r` is `c`, or a line that claims its number, carries its hash and has that hash.
  abbrev pub Delivers : Record → Record → Type 0
  Delivers c r = (r ≡ c) ⊎ (r.seq ≡ c.seq) × (r.hash ≡ c.hash) × (compute r ≡ some r.hash)

  abbrev pub Covers : List Record → Record → Type 0
  Covers [] r = ⊥
  Covers (c ∷ cs) r = Delivers c r ⊎ Covers cs r

  -- What a result without a break says of a source that is not empty.
  pub record Verified (items : List Item) (opts : VerifyOpts) (out : Result) : Type 0 where
    pub first : Record
    pub rest : List Record
    pub joins : Joins opts first
    pub first_hash : compute first ≡ some first.hash
    pub links : Links first.install first.seq first.hash rest
    pub covers : AllRead (Covers (first ∷ rest)) items
    pub taken : All (Holds items) (first ∷ rest)
    pub first_seq : out.first_seq ≡ first.seq
    pub last_seq : out.last_seq ≡ first.seq + length rest
    pub records : out.records ≡ suc (length rest)
    pub fragment : out.fragment ≡ not (first.seq == 1)
