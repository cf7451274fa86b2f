-- ===== src/Identity/Role.antt =====
-- internal/identity/role.go. A role and a permission are texts, any text at all.
pub mod Grants
use nodary.Prelude.{
  ℕ, zero, suc, ◌+◌, String, Bool, true, false, ◌||◌, Option, none, some, List, [], ◌∷◌, leb,
  str_eq, if◌then◌else◌,
}

abbrev pub viewer : String
viewer = "viewer"

abbrev pub user : String
user = "user"

abbrev pub operator : String
operator = "operator"

abbrev pub admin : String
admin = "admin"

abbrev pub roles : List String
roles = viewer ∷ user ∷ operator ∷ admin ∷ []

-- `slices.Index` plus 1: 0 for what is not there.
unfoldable pub index_of : String → List String → ℕ
index_of s [] = 0
index_of s (r ∷ rs) =
    let n = index_of s rs in if str_eq s r then 1 else (elim n [ zero ↦ 0 | suc m ↦ suc (suc m) ])

unfoldable pub contains : List String → String → Bool
contains [] s = false
contains (r ∷ rs) s = str_eq s r || contains rs s

unfoldable pub valid : String → Bool
valid r = contains roles r

unfoldable pub rank : String → ℕ
rank r = index_of r roles

unfoldable pub parse_role : String → Option String
parse_role s = if valid s then some s else none

-- The table `minimumRole`.
abbrev pub minimum_roles : List (String × String)
minimum_roles =
    ("state.read", viewer)
    ∷ ("usage.read.self", viewer)
    ∷ ("inference.use", user)
    ∷ ("model.enable", operator)
    ∷ ("model.disable", operator)
    ∷ ("model.restart", operator)
    ∷ ("model.stage", operator)
    ∷ ("node.drain", operator)
    ∷ ("config.write", admin)
    ∷ ("catalog.write", admin)
    ∷ ("backend.register", admin)
    ∷ ("node.approve", admin)
    ∷ ("user.manage", admin)
    ∷ ("token.manage", admin)
    ∷ ("policy.apply", admin)
    ∷ []

unfoldable pub lookup : String → List (String × String) → Option String
lookup p [] = none
lookup p ((q, r) ∷ rest) = if str_eq p q then some r else lookup p rest

unfoldable pub can : String → String → Bool
can r p = elim (lookup p minimum_roles) [ none ↦ false | some least ↦ (leb (rank least) (rank r)) ]

-- What `Authorize` answers: the role that would do, or that no build grants the permission.
pub data Verdict : Type 0 where
  allowed : Verdict
  requires : String → Verdict
  unknown_permission : Verdict

unfoldable pub authorize : String → String → Verdict
authorize r p = if can r p then Verdict.allowed else elim (lookup p minimum_roles) [
  | none ↦ Verdict.unknown_permission
  | some least ↦ (Verdict.requires least)
]
