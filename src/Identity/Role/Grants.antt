-- ===== src/Identity/Role/Grants.antt =====
-- `Can` against the table of dev/specs/07-identity-audit.md, role by role.
use nodary.Prelude.{
  ℕ, ◌≡◌, String, Bool, true, false, ◌||◌, none, some, List, [], ◌∷◌, ◌++◌, leb, str_eq,
  if◌then◌else◌, ◌⊎◌, inl, inr, Bool-cases, Option-cases, refl, ap, ◌∙◌, arith,
}
use nodary.Identity.Role.{
  viewer, user, operator, admin, roles, index_of, contains, valid, rank, minimum_roles, lookup, can,
  Verdict, authorize,
}

-- What each role adds to the roles before it.
abbrev pub viewer_adds : List String
viewer_adds = "state.read" ∷ "usage.read.self" ∷ []

abbrev pub user_adds : List String
user_adds = "inference.use" ∷ []

abbrev pub operator_adds : List String
operator_adds =
    "model.enable" ∷ "model.disable" ∷ "model.restart" ∷ "model.stage" ∷ "node.drain" ∷ []

abbrev pub admin_adds : List String
admin_adds =
    "config.write" ∷ "catalog.write" ∷ "backend.register" ∷ "node.approve" ∷ "user.manage"
    ∷ "token.manage" ∷ "policy.apply" ∷ []

-- `can` entry by entry.
abbrev holds : ℕ → String → List (String × String) → Bool
holds n p [] = false
holds n p ((q, least) ∷ table) =
    let rest = holds n p table in if str_eq p q then leb (rank least) n else rest

can-lookup :
    (r p : String) (table : List (String × String))
    → (elim (lookup p table) [ none ↦ false | some least ↦ (leb (rank least) (rank r)) ])
      ≡ holds (rank r) p table
unfolding lookup
can-lookup r p [] = refl
can-lookup r p ((q, least) ∷ table) = elim (Bool-cases (str_eq p q)) [
  | inl e ↦ rw e
  | inr e ↦ rw (e, can-lookup r p table)
]

can-holds : (r p : String) → can r p ≡ holds (rank r) p minimum_roles
unfolding can
can-holds r p = can-lookup r p minimum_roles

if_true : (b c : Bool) → (if b then true else c) ≡ (b || c)
if_true true c = refl
if_true false c = refl

if_false : (b : Bool) → (if b then false else false) ≡ false
if_false true = refl
if_false false = refl

-- A role holds exactly the permissions that the table gives to it and to the roles before it.
pub can-table :
    (p : String)
    → (can viewer p ≡ contains viewer_adds p)
      × (can user p ≡ contains (viewer_adds ++ user_adds) p)
      × (can operator p ≡ contains (viewer_adds ++ (user_adds ++ operator_adds)) p)
      × (can admin p ≡ contains (viewer_adds ++ (user_adds ++ (operator_adds ++ admin_adds))) p)
unfolding contains rank index_of
can-table p = (
  can-holds viewer p ∙ simp (if_true, if_false),
  can-holds user p ∙ simp (if_true, if_false),
  can-holds operator p ∙ simp (if_true, if_false),
  can-holds admin p ∙ simp if_true,
)

-- A text that is not a role has rank 0, and every permission of the table wants at least rank 1.
holds_nothing : (p : String) → holds 0 p minimum_roles ≡ false
unfolding rank index_of
holds_nothing p = simp if_false

index_of-absent : (s : String) (rs : List String) → contains rs s ≡ false → index_of s rs ≡ 0
unfolding contains index_of
index_of-absent s [] e = refl
index_of-absent s (r ∷ rs) e =
    let k : str_eq s r ≡ false = ground (arith, e) in
    let rest : contains rs s ≡ false = ground (arith, e) in rw (k, index_of-absent s rs rest)

rank-not_valid : (r : String) → valid r ≡ false → rank r ≡ 0
unfolding valid rank
rank-not_valid r e = index_of-absent r roles e

-- A text that is not one of the four roles holds no permission, and a permission that the table
-- does not name is held by no text at all, an administrator included.
can-fails_closed :
    (r p : String)
    → (valid r ≡ false → can r p ≡ false) × (lookup p minimum_roles ≡ none → can r p ≡ false)
unfolding can
can-fails_closed r p = (
  (λ e.
      can-holds r p
      ∙ ap (λ (n : ℕ). holds n p minimum_roles) (rank-not_valid r e)
      ∙ holds_nothing p),
  (λ e. rw (can, e)),
)

-- Authorization and `can` agree, and the two refusals differ by whether the table names the
-- permission; the role that a refusal names would be allowed.
authorize-can :
    (r p : String)
    → ((authorize r p ≡ Verdict.allowed) × (can r p ≡ true))
      ⊎ ((least : String) × (authorize r p ≡ Verdict.requires least)
          × (can r p ≡ false)
          × (authorize least p ≡ Verdict.allowed))
      ⊎ ((authorize r p ≡ Verdict.unknown_permission) × ((r' : String) → can r' p ≡ false))
unfolding authorize can
authorize-can r p = elim (Option-cases (lookup p minimum_roles)) [
  | inl e ↦ inr (inr (rw (can, e), λ r'. rw (can, e)))
  | inr (least, e) ↦ elim (Bool-cases (leb (rank least) (rank r))) [
    | inl h ↦ inl (rw (can, e, h), rw (can, e, h))
    | inr h ↦ inr (inl (least, rw (can, e, h), rw (can, e, h), rw (can, e, reflexive (rank least))))
  ]
]
  where
    reflexive : (n : ℕ) → leb n n ≡ true
    reflexive n = ground arith
