-- ===== src/Policy/Decide.antt =====
-- policy.ts: `evaluate`, the policy itself and `explain`. The rest of the program asks a policy for a
-- principal and nothing else.
pub mod Grants
pub mod Order
pub mod Total
use mcp_authz.Base.{
  String, List, [], Option, none, some, Result, ok, ◌>>=◌, filter, find, flat_map, dedup, lookup,
  or_else,
}
use mcp_authz.Policy.{Identity, Principal, Rule, Policy, PolicyError, create_principal}
use mcp_authz.Policy.Matching.{matches}

-- What `explain` returns. A matched rule is a copy of the rule.
pub record Explanation : Type 0 where
  pub principal : Principal
  pub matched : List Rule
  pub denied_by : Option Rule

-- `roles.get(role) ?? []`
pub grants_of : Policy → String → List String
unfolding lookup
grants_of policy role = or_else (lookup policy.roles role) []

abbrev pub unless_denied : Option Rule → List String → List String
unless_denied none names = names
unless_denied (some rule) names = []

module _ (lower : String → String) (policy : Policy) (identity : Identity) where
  pub matched_rules : List Rule
  unfolding filter matches
  matched_rules = filter (λ rule. matches lower rule.match identity) policy.rules

  pub denied_by : Option Rule
  unfolding find matched_rules
  denied_by = find (λ rule. rule.deny) matched_rules

  pub held_roles : List String
  unfolding flat_map dedup denied_by
  held_roles = unless_denied denied_by (dedup (flat_map (λ rule. rule.roles) matched_rules))

  pub held_permissions : List String
  unfolding grants_of held_roles
  held_permissions = unless_denied denied_by (dedup (flat_map (grants_of policy) held_roles))

  -- `policy(identity)`
  unfoldable pub decide : Result PolicyError Principal
  unfolding held_permissions create_principal
  decide = create_principal identity held_roles held_permissions

  unfoldable pub explain : Result PolicyError Explanation
  explain = do
    principal ← decide
    ok (record { principal = principal; matched = matched_rules; denied_by = denied_by })
