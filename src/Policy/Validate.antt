-- ===== src/Policy/Validate.antt =====
-- policy.ts: `definePolicy` and `definePermissions`, which check a policy once, when it is made, down
-- to the last rule. The policy comes as a value that nothing has checked.
pub mod Tests
pub mod Sound
pub mod Rules
pub mod WellFormed
use mcp_authz.Base.{
  ℕ, zero, suc, Bool, true, false, not, ◌&&◌, ◌||◌, String, List, [], ◌∷◌, Option, none, some,
  Result, ok, err, ◌>>=◌, ◌>>◌, refuse_if, contains, insert, dedup, keys, filter, flat_map, length,
  ltb, is_empty, if◌then◌else◌, ◌==◌,
}
use mcp_authz.Json.{Json, undefined, bool, str, arr, items, record?, string?, own}
use mcp_authz.Policy.{
  Match, Rule, Policy, PolicyError, Place, catalogue_field, permission_catalogue, role_field,
  not_object, roles_not_object, rules_not_array, wildcard_in_catalogue, empty_role_name,
  unknown_field, not_a_list, empty_string, redundant_wildcard, not_in_catalogue, rule_not_object,
  deny_not_boolean, grants_nothing, bad_role, match_not_object, claim_not_object, bad_claim,
  unknown_rule_field, undefined_role, unknown_match_field, bad_match_field,
}

-- `if (value === undefined || …) throw`, for the values that have to be records and arrays.
abbrev pub require {ℓ} : {A : Type ℓ} → Option A → PolicyError → Result PolicyError A
require none e = err e
require (some a) e = ok a

pub array? : Json → Option (List Json)
array? (arr vs) = some (items vs)
array? _ = none

pub is_undefined : Json → Bool
is_undefined undefined = true
is_undefined _ = false

-- The first key that is not one of the names is refused.
pub only_keys : List String → (String → PolicyError) → List String → Result PolicyError (Unit {0})
only_keys names refusal [] = ok tt
only_keys names refusal (k ∷ rest) =
    let next = only_keys names refusal rest in if contains names k then next else err (refusal k)

-- The loop of `stringList`.
pub collect_strings : Place → List String → List Json → Result PolicyError (List String)
collect_strings at seen [] = ok seen
collect_strings at seen (str s ∷ rest) =
    let next = collect_strings at (insert seen s) rest in
    if s == "" then err (empty_string at) else next
collect_strings at seen (v ∷ rest) = err (empty_string at)

pub string_list : Place → Json → Result PolicyError (List String)
string_list at value = do vs ← require (array? value) (not_a_list at); collect_strings at [] vs

-- `catalogue` of `definePolicy`: absent when the policy has none.
pub catalogue_of : Json → Result PolicyError (Option (List String))
catalogue_of undefined = ok none
catalogue_of value = do
  names ← string_list catalogue_field value
  refuse_if (contains names "*") wildcard_in_catalogue
  ok (some names)

-- `permission !== '*' && known && !known.has(permission)`
abbrev pub unlisted : Option (List String) → String → Bool
unlisted none permission = false
unlisted (some known) permission = not (permission == "*") && not (contains known permission)

pub all_listed : Option (List String) → String → List String → Result PolicyError (Unit {0})
all_listed known role [] = ok tt
all_listed known role (p ∷ rest) =
    let next = all_listed known role rest in
    if unlisted known p then err (not_in_catalogue role p) else next

pub validate_role : Option (List String) → String × Json → Result PolicyError (String × List String)
validate_role known (role, permissions) = do
  refuse_if (role == "") empty_role_name
  validated ← string_list (role_field role) permissions
  refuse_if (contains validated "*" && ltb 1 (length validated)) (redundant_wildcard role)
  all_listed known role validated
  ok (role, validated)

pub validate_roles :
    Option (List String) → List (String × Json) → Result PolicyError (List (String × List String))
validate_roles known [] = ok []
validate_roles known (entry ∷ rest) = do
  role ← validate_role known entry
  roles ← validate_roles known rest
  ok (role ∷ roles)

-- The `role` of a rule: a name or a list of names. `every_name` is none of a list that holds anything
-- but names.
every_name : List Json → Option (List String)
every_name [] = some []
every_name (v ∷ rest) =
    let names = every_name rest in
    elim (string? v) [
      | none ↦ none
      | some s ↦ elim names [ none ↦ none | some more ↦ if s == "" then none else some (s ∷ more) ]
    ]

pub role_names : ℕ → Json → Result PolicyError (List String)
role_names at undefined = ok []
role_names at (arr vs) = do
  refuse_if (is_empty (items vs)) (bad_role at)
  names ← require (every_name (items vs)) (bad_role at)
  ok (dedup names)
role_names at value = do names ← require (every_name (value ∷ [])) (bad_role at); ok (dedup names)

-- An optional field of a match that has to be a non-empty string.
match_field : ℕ → String → Json → Result PolicyError (Option String)
match_field at key undefined = ok none
match_field at key (str s) = if s == "" then err (bad_match_field at key) else ok (some s)
match_field at key value = err (bad_match_field at key)

claim_entries : ℕ → List (String × Json) → Result PolicyError (List (String × String))
claim_entries at [] = ok []
claim_entries at ((path, str expected) ∷ rest) = do
  refuse_if (path == "" || expected == "") (bad_claim at)
  more ← claim_entries at rest
  ok ((path, expected) ∷ more)
claim_entries at ((path, value) ∷ rest) = err (bad_claim at)

claim_field : ℕ → Json → Result PolicyError (List (String × String))
claim_field at undefined = ok []
claim_field at value = do fs ← require (record? value) (claim_not_object at); claim_entries at fs

abbrev pub match_fields : List String
match_fields = "issuer" ∷ "sub" ∷ "email" ∷ "domain" ∷ "claim" ∷ []

abbrev pub any_caller : Match
any_caller = record { issuer = none; sub = none; email = none; domain = none; claim = [] }

pub validate_match : ℕ → Json → Result PolicyError Match
validate_match at undefined = ok any_caller
validate_match at value = do
  fs ← require (record? value) (match_not_object at)
  only_keys match_fields (unknown_match_field at) (keys fs)
  issuer ← match_field at "issuer" (own fs "issuer")
  sub ← match_field at "sub" (own fs "sub")
  email ← match_field at "email" (own fs "email")
  domain ← match_field at "domain" (own fs "domain")
  claim ← claim_field at (own fs "claim")
  ok (record { issuer = issuer; sub = sub; email = email; domain = domain; claim = claim })

pub deny_flag : ℕ → Json → Result PolicyError Bool
deny_flag at undefined = ok false
deny_flag at (bool b) = ok b
deny_flag at value = err (deny_not_boolean at)

pub all_defined : List String → ℕ → List String → Result PolicyError (Unit {0})
all_defined defined at [] = ok tt
all_defined defined at (role ∷ rest) =
    let next = all_defined defined at rest in
    if contains defined role then next else err (undefined_role at role)

abbrev pub rule_fields : List String
rule_fields = "match" ∷ "role" ∷ "deny" ∷ []

pub validate_rule : List String → ℕ → Json → Result PolicyError Rule
validate_rule defined at value = do
  fs ← require (record? value) (rule_not_object at)
  only_keys rule_fields (unknown_rule_field at) (keys fs)
  deny ← deny_flag at (own fs "deny")
  refuse_if (not deny && is_undefined (own fs "role")) (grants_nothing at)
  named ← role_names at (own fs "role")
  all_defined defined at named
  match ← validate_match at (own fs "match")
  ok (record { index = at; match = match; deny = deny; roles = named })

pub validate_rules : List String → ℕ → List Json → Result PolicyError (List Rule)
validate_rules defined at [] = ok []
validate_rules defined at (value ∷ rest) = do
  rule ← validate_rule defined at value
  rules ← validate_rules defined (suc at) rest
  ok (rule ∷ rules)

-- The concrete vocabulary: the catalogue, or every name that a role grants.
abbrev pub granted_by_all : List (String × List String) → List String
granted_by_all roles = flat_map (λ r. r.1) roles

pub vocabulary : Option (List String) → List (String × List String) → List String
vocabulary (some names) roles = names
vocabulary none roles = dedup (filter (λ p. not (p == "*")) (granted_by_all roles))

abbrev pub policy_fields : List String
policy_fields = "permissions" ∷ "roles" ∷ "rules" ∷ []

unfoldable pub define_policy : Json → Result PolicyError Policy
define_policy spec = do
  fs ← require (record? spec) not_object
  only_keys policy_fields unknown_field (keys fs)
  role_specs ← require (record? (own fs "roles")) roles_not_object
  rule_specs ← require (array? (own fs "rules")) rules_not_array
  catalogue ← catalogue_of (own fs "permissions")
  roles ← validate_roles catalogue role_specs
  rules ← validate_rules (keys roles) zero rule_specs
  ok (record { roles = roles; rules = rules; permissions = vocabulary catalogue roles })

unfoldable pub define_permissions : Json → Result PolicyError (List String)
define_permissions value = do
  catalogue ← string_list permission_catalogue value
  refuse_if (contains catalogue "*") wildcard_in_catalogue
  ok catalogue
