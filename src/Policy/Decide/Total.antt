-- ===== src/Policy/Decide/Total.antt =====
-- Over a well-formed policy every proper identity gets a principal, and `explain` points at the rules.
use mcp_authz.Base.{
  ℕ, zero, suc, ◌+◌, true, false, String, ◌≡◌, refl, sym, ap, ◌↔◌, inl, inr, ◌≢◌, List, [], ◌∷◌,
  arith, none, some, ok, In, All, In-All, All-of_In, get_elem?, keys, lookup_sound, Option-cases,
  subst,
}
use mcp_authz.Policy.{Identity, Principal, Rule, Policy, has_empty}
use mcp_authz.Policy.Held.{IsNamed, create_principal_total}
use mcp_authz.Policy.Matching.{matches}
use mcp_authz.Policy.Validate.Sound.{RoleIsValid}
use mcp_authz.Policy.Validate.Rules.{RuleIsValid, RulesAreValid}
use mcp_authz.Policy.Validate.WellFormed.{IsWellFormed}
use mcp_authz.Policy.Decide.{
  Explanation, matched_rules, denied_by, held_roles, held_permissions, decide, explain,
}
use mcp_authz.Policy.Decide.Grants.{
  In-matched_rules, denied_by-eq-none, denied_by-eq-some, deny_empties, held_roles_iff,
  held_permissions_iff,
}

RulesAreValid-In :
    (defined : List String) (at : ℕ) (rules : List Rule) (rule : Rule)
    → RulesAreValid defined at rules
    → In rule rules
    → (k : ℕ) × RuleIsValid defined (at + k) rule × (get_elem? rules k ≡ some rule)
RulesAreValid-In defined at [] rule v i = absurd i
RulesAreValid-In defined at (r ∷ rules) rule v (inl e) =
    let e0 : at + 0 ≡ at = omega arith in
    (
      0,
      subst (RuleIsValid defined (at + 0)) e (subst (λ n. RuleIsValid defined n r) (sym e0) v.0),
      ap some e,
    )
RulesAreValid-In defined at (r ∷ rules) rule v (inr i) =
    let (k, valid, found) = RulesAreValid-In defined (suc at) rules rule v.1 i in
    let e : suc at + k ≡ at + suc k = omega arith in
    (suc k, subst (λ n. RuleIsValid defined n rule) e valid, found)

In-keys_entry :
    (roles : List (String × List String)) (role : String)
    → In role (keys roles)
    → (entry : String × List String) × In entry roles × (entry.0 ≡ role)
In-keys_entry [] role i = absurd i
In-keys_entry ((name, names) ∷ roles) role (inl e) = ((name, names), inl refl, e)
In-keys_entry ((name, names) ∷ roles) role (inr i) =
    let (entry, j, e) = In-keys_entry roles role i in (entry, inr j, e)

module _ (lower : String → String) (policy : Policy) (identity : Identity)
    (wf : IsWellFormed policy) where
  rule_role-IsNamed :
      (rule : Rule) (role : String) → In rule policy.rules → In role rule.roles → IsNamed role
  rule_role-IsNamed rule role i j =
      let (k, valid, _) = RulesAreValid-In (keys policy.roles) zero policy.rules rule wf.rules i in
      let (entry, l, e) = In-keys_entry policy.roles role (valid.defined_roles role j) in
      subst IsNamed e
        (In-All (RoleIsValid (some policy.permissions)) entry policy.roles wf.roles l).named

  held_roles-IsNamed : All IsNamed (held_roles lower policy identity)
  held_roles-IsNamed = All-of_In IsNamed _ (λ role i.
      elim (Option-cases (denied_by lower policy identity)) [
        | inl e ↦
            let (rule, j, _, named) = (held_roles_iff lower policy identity role e).0 i in
            rule_role-IsNamed rule role j named
        | inr (rule, e) ↦
            absurd (subst (λ l. In role l) (deny_empties lower policy identity rule e).0 i)
      ])

  held_permissions-IsNamed : All IsNamed (held_permissions lower policy identity)
  held_permissions-IsNamed = All-of_In IsNamed _ (λ p i.
      elim (Option-cases (denied_by lower policy identity)) [
        | inl e ↦
            let (role, names, _, found, listed) =
              (held_permissions_iff lower policy identity p e).0 i in
            let entry = lookup_sound policy.roles role names found in
            In-All IsNamed p names
              (In-All (RoleIsValid (some policy.permissions)) (role, names) policy.roles wf.roles
                entry).names.0
              listed
        | inr (rule, e) ↦
            absurd (subst (λ l. In p l) (deny_empties lower policy identity rule e).1 i)
      ])

  -- Over a well-formed policy every identity with a subject, an issuer and no empty email becomes a
  -- principal: the decision never throws.
  pub decide_total :
      IsNamed identity.sub
      → IsNamed identity.issuer
      → has_empty identity.email ≡ false
      → (p : Principal) × (decide lower policy identity ≡ ok p)
  unfolding decide
  decide_total s i e =
      create_principal_total identity _ _ s i e held_roles-IsNamed held_permissions-IsNamed

  -- A rule that matches stands in the policy at the index that it carries.
  matched_index :
      (rule : Rule)
      → In rule (matched_rules lower policy identity)
      → get_elem? policy.rules rule.index ≡ some rule
  matched_index rule i =
      let j = ((In-matched_rules lower policy identity rule).0 i).0 in
      let (k, valid, found) =
        RulesAreValid-In (keys policy.roles) zero policy.rules rule wf.rules j in
      let at : rule.index ≡ k = omega (arith, valid.index) in
      subst (λ n. get_elem? policy.rules n ≡ some rule) (sym at) found

  explained :
      (x : Explanation)
      → explain lower policy identity ≡ ok x
      → (principal : Principal) × (decide lower policy identity ≡ ok principal)
        × (x ≡ record {
          principal = principal;
          matched = matched_rules lower policy identity;
          denied_by = denied_by lower policy identity;
        })
  explained x e = unfold explain in ground arith

  -- An explanation's principal is the decision. Its rules are those that match, each standing in the
  -- policy at the index that it carries, and it blames a rule exactly when a matching rule denies.
  pub explain_sound :
      (x : Explanation)
      → explain lower policy identity ≡ ok x
      → (decide lower policy identity ≡ ok x.principal)
        × ((rule : Rule)
            → In rule x.matched
              ↔ (In rule policy.rules × (matches lower rule.match identity ≡ true)))
        × ((rule : Rule) → In rule x.matched → get_elem? policy.rules rule.index ≡ some rule)
        × ((rule : Rule) → x.denied_by ≡ some rule → In rule x.matched × (rule.deny ≡ true))
        × (x.denied_by ≡ none → (rule : Rule) → In rule x.matched → rule.deny ≢ true)
  explain_sound x e =
      let (principal, decided, same) = explained x e in
      rw same (
        decided,
        In-matched_rules lower policy identity,
        matched_index,
        λ rule blamed.
            let (i, d) = denied_by-eq-some lower policy identity rule blamed in
            ((In-matched_rules lower policy identity rule).1 (i, d.0), d.1),
        λ none_blamed rule i d.
            let (j, m) = (In-matched_rules lower policy identity rule).0 i in
            denied_by-eq-none lower policy identity rule none_blamed j (m, d),
      )
