-- ===== src/Policy/Decide/Order.antt =====
-- policy.ts: decisions of policies that differ in the order of their rules.
use mcp_authz.Base.{true, String, ◌≡◌, sym, some, ok, In, lookup, subst, Bool-eq, ◌∙◌}
use mcp_authz.Policy.{Identity, Principal, Rule, Policy, can}
use mcp_authz.Policy.Matching.{matches}
use mcp_authz.Policy.Decide.{decide}
use mcp_authz.Policy.Decide.Grants.{IsAllowed, decide-can_iff}

-- Two rules that say the same, wherever they stand: `definePolicy` numbers a policy's rules.
abbrev pub SaysSame : Rule → Rule → Type 0
SaysSame rule other =
    (rule.match ≡ other.match) × (rule.deny ≡ other.deny) × (rule.roles ≡ other.roles)

-- Each rule of the second policy stands in the first, at whatever index.
abbrev pub HasRulesOf : Policy → Policy → Type 0
HasRulesOf policy policy' =
    (rule : Rule)
    → In rule policy'.rules
    → (other : Rule) × In other policy.rules × SaysSame other rule

module _ (lower : String → String) (identity : Identity) (policy policy' : Policy) where
  IsAllowed-same :
      policy.roles ≡ policy'.roles
      → HasRulesOf policy policy'
      → HasRulesOf policy' policy
      → (permission : String) → IsAllowed lower policy identity permission
      → IsAllowed lower policy' identity permission
  IsAllowed-same same_roles forth back permission h =
      let (rule, i, grants) = h.1 in
      let (role, names, named, found, listed) = grants.1 in
      let (other, j, same) = back rule i in
      (
        λ stands k denies.
            let (old, l, like) = forth stands k in
            h.0 old l (
              subst (λ m. matches lower m identity ≡ true) (sym like.0) denies.0,
              like.1 ∙ denies.1,
            ),
        (
          other,
          j,
          (
            subst (λ m. matches lower m identity ≡ true) (sym same.0) grants.0,
            (
              role,
              names,
              subst (λ rs. In role rs) (sym same.2) named,
              subst (λ rs. lookup rs role ≡ some names) same_roles found,
              listed,
            ),
          ),
        ),
      )

module _ (lower : String → String) (identity : Identity) (policy policy' : Policy) where
  -- Two policies with the same roles whose rules say the same, in whatever order and however often each
  -- stands, let a caller do the same things. Where a rule stands, its index, may differ.
  pub decide_order :
      policy.roles ≡ policy'.roles
      → HasRulesOf policy policy'
      → HasRulesOf policy' policy
      → (p p' : Principal) → decide lower policy identity ≡ ok p
      → decide lower policy' identity ≡ ok p'
      → (permission : String) → can p permission ≡ can p' permission
  decide_order same_roles forth back p p' e e' permission =
      Bool-eq (can p permission) (can p' permission)
        (λ h. (decide-can_iff lower policy' identity p' e' permission).1 (
          IsAllowed-same lower identity policy policy' same_roles forth back permission
            ((decide-can_iff lower policy identity p e permission).0 h)))
        (λ h. (decide-can_iff lower policy identity p e permission).1 (
          IsAllowed-same lower identity policy' policy (sym same_roles) back forth permission
            ((decide-can_iff lower policy' identity p' e' permission).0 h)))
