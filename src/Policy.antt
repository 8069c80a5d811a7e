-- ===== src/Policy.antt =====
-- policy.ts and identity.ts: who a caller is, what a policy says, and who they become under it.
-- What the code throws is a `PolicyError`, one constructor for each message.
pub mod Tests
pub mod Matching
pub mod Validate
pub mod Held
pub mod Decide
pub mod Reconcile
use mcp_authz.Base.{
  ℕ, Bool, false, ◌||◌, String, List, [], ◌∷◌, Option, none, some, Result, ok, err, ◌>>=◌, ◌>>◌,
  refuse_if, contains, insert, dedup, ◌==◌, if◌then◌else◌,
}
use mcp_authz.Json.{Fields}

-- `Identity` of identity.ts.
pub record Identity : Type 0 where
  pub issuer : String
  pub sub : String
  pub email : Option String
  pub email_verified : Bool
  pub domain : Option String
  pub claims : Fields

-- `Principal`, without its method `can`.
pub record Principal : Type 0 where
  pub issuer : String
  pub sub : String
  pub email : Option String
  pub domain : Option String
  pub roles : List String
  pub permissions : List String

-- `Match`
pub record Match : Type 0 where
  pub issuer : Option String
  pub sub : Option String
  pub email : Option String
  pub domain : Option String
  pub claim : List (String × String)

-- A rule as `definePolicy` keeps it.
pub record Rule : Type 0 where
  pub index : ℕ
  pub match : Match
  pub deny : Bool
  pub roles : List String

pub record Policy : Type 0 where
  pub roles : List (String × List String)
  pub rules : List Rule
  pub permissions : List String

-- Where a list of permission strings stands.
pub data Place : Type 0 where
  catalogue_field permission_catalogue principal_roles principal_permissions : Place
  role_field : String → Place

pub data PolicyError : Type 0 where
  not_object roles_not_object rules_not_array wildcard_in_catalogue empty_role_name : PolicyError
  no_subject no_issuer empty_email : PolicyError
  unknown_field : String → PolicyError
  not_a_list empty_string : Place → PolicyError
  redundant_wildcard : String → PolicyError
  not_in_catalogue : String → String → PolicyError
  rule_not_object deny_not_boolean grants_nothing bad_role match_not_object : ℕ → PolicyError
  claim_not_object bad_claim : ℕ → PolicyError
  unknown_rule_field undefined_role unknown_match_field bad_match_field : ℕ → String → PolicyError

-- The method `can`: a `*` grant satisfies every permission.
unfoldable pub can : Principal → String → Bool
unfolding contains
can p permission = contains p.permissions "*" || contains p.permissions permission

-- `stringList` over a list that the types make one of strings.
pub distinct_strings : Place → List String → List String → Result PolicyError (List String)
distinct_strings at seen [] = ok seen
distinct_strings at seen (s ∷ rest) =
    let next = distinct_strings at (insert seen s) rest in
    if s == "" then err (empty_string at) else next

-- `email !== undefined && email.length === 0`
abbrev pub has_empty : Option String → Bool
has_empty none = false
has_empty (some s) = s == ""

unfoldable pub create_principal :
    Identity → List String → List String → Result PolicyError Principal
unfolding dedup insert distinct_strings
create_principal identity roles permissions = do
  refuse_if (identity.sub == "") no_subject
  refuse_if (identity.issuer == "") no_issuer
  refuse_if (has_empty identity.email) empty_email
  held_roles ← distinct_strings principal_roles [] roles
  held_permissions ← distinct_strings principal_permissions [] permissions
  ok (record {
    issuer = identity.issuer;
    sub = identity.sub;
    email = identity.email;
    domain = identity.domain;
    roles = dedup held_roles;
    permissions = dedup held_permissions;
  })
