-- ===== src/Policy/Reconcile.antt =====
-- policy.ts: `reconcile`, the check at boot of what the tools demand against what the roles grant.
pub mod Reach
use mcp_authz.Base.{
  Bool, true, false, not, String, List, [], ◌∷◌, ◌++◌, Option, none, some, map, filter, lookup,
  keys, is_some, is_empty, any, flat_map, if◌then◌else◌, ◌==◌, ◌^^◌,
}

pub record Drift : Type 0 where
  pub error : Option String
  pub warning : Option String

-- `grantedBy.set(permission, [...(grantedBy.get(permission) ?? []), role])`
pub add_grant : String → List (String × List String) → String → List (String × List String)
add_grant role [] permission = (permission, role ∷ []) ∷ []
add_grant role ((p, by) ∷ rest) permission =
    let more = add_grant role rest permission in
    if p == permission then (p, by ++ role ∷ []) ∷ rest else (p, by) ∷ more

pub add_role : List (String × List String) → String → List String → List (String × List String)
unfolding add_grant
add_role table role [] = table
add_role table role (permission ∷ more) = add_role (add_grant role table permission) role more

pub granted_from :
    List (String × List String) → List (String × List String) → List (String × List String)
unfolding add_role
granted_from table [] = table
granted_from table ((role, permissions) ∷ rest) =
    granted_from (add_role table role permissions) rest

-- Permission to the roles that grant it.
pub granted_by : List (String × List String) → List (String × List String)
unfolding granted_from
granted_by roles = granted_from [] roles

-- `text.join(separator)`
pub join : String → List String → String
join separator [] = ""
join separator (x ∷ []) = x
join separator (x ∷ y ∷ rest) = x ^^ separator ^^ join separator (y ∷ rest)

abbrev report : List String → (String × String → List String) → List (String × String) → String
report head lines entries = join "\n" (head ++ flat_map lines entries)

abbrev pub when_any {ℓ} : {A : Type ℓ} → List A → String → Option String
when_any [] text = none
when_any (x ∷ xs) text = some text

abbrev unreachable_lines : String × String → List String
unreachable_lines (tool, permission) =
    ("  " ^^ tool) ∷ ("    requires: " ^^ permission) ∷ "    granted by: no role" ∷ "" ∷ []

abbrev unused_lines : String × List String → List String
unused_lines (permission, by_roles) =
    ("  " ^^ permission)
    ∷ ("    granted by: " ^^ join ", " (map (λ role. "\"" ^^ role ^^ "\"") by_roles))
    ∷ "    required by: no registered capability"
    ∷ ""
    ∷ []

module _ (roles : List (String × List String)) (required : List (String × String)) where
  pub unreachable : List (String × String)
  unfolding granted_by lookup filter
  unreachable =
      if is_some (lookup (granted_by roles) "*")
      then []
      else filter (λ entry. not (is_some (lookup (granted_by roles) entry.1))) required

  pub unused : List (String × List String)
  unfolding granted_by any filter
  unused =
      filter (λ entry. not (any (λ demand. demand.1 == entry.0) required))
        (filter (λ entry. not (entry.0 == "*")) (granted_by roles))

  unfoldable pub reconcile : Drift
  unfolding unreachable unused flat_map join
  reconcile = record {
    error = when_any unreachable (
        join "\n" (
          "MCP policy validation failed"
          ∷ ""
          ∷ "Unreachable capability:"
          ∷ flat_map unreachable_lines unreachable));
    warning =
        when_any unused
          (join "\n" ("MCP policy has unused permissions:" ∷ flat_map unused_lines unused));
  }
