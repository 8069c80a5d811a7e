-- ===== src/Policy/Decide/Grants.antt =====
-- Who may do what under a policy: the decision against a declarative reading of the rules.
use mcp_authz.Base.{
  true, false, String, ◌≡◌, sym, ◌↔◌, ◌⊎◌, inl, inr, List, [], none, some, ok, In, filter_sound,
  filter_complete, find-eq-some, find-eq-none, eq-nil, Distinct, flat_map, In-flat_map,
  flat_map_of_In, In-dedup, dedup, lookup, Option-cases, subst,
}
use mcp_authz.Policy.{Identity, Principal, Rule, Policy, can}
use mcp_authz.Policy.Matching.{matches}
use mcp_authz.Policy.Held.{Held, create_principal-Held, can_iff}
use mcp_authz.Policy.Decide.{
  grants_of, matched_rules, denied_by, held_roles, held_permissions, decide,
}

module _ (lower : String → String) (policy : Policy) (identity : Identity) where
  -- The rule matches, and says no.
  abbrev pub Denies : Rule → Type 0
  Denies rule = (matches lower rule.match identity ≡ true) × (rule.deny ≡ true)

  -- The rule matches, and names a role that grants the permission or everything.
  abbrev pub Grants : Rule → String → Type 0
  Grants rule permission =
      (matches lower rule.match identity ≡ true)
      × ((role : String) × (names : List String) × In role rule.roles
          × (lookup policy.roles role ≡ some names)
          × (In "*" names ⊎ In permission names))

  -- Some rule grants the permission, and no rule denies.
  abbrev pub IsAllowed : String → Type 0
  IsAllowed permission =
      ((rule : Rule) → In rule policy.rules → ¬ Denies rule)
      × ((rule : Rule) × In rule policy.rules × Grants rule permission)

  pub In-matched_rules :
      (rule : Rule)
      → In rule (matched_rules lower policy identity)
        ↔ (In rule policy.rules × (matches lower rule.match identity ≡ true))
  unfolding matched_rules
  In-matched_rules rule = (filter_sound _ rule policy.rules, λ h. filter_complete _ rule _ h.0 h.1)

  pub denied_by-eq-none :
      (rule : Rule) → denied_by lower policy identity ≡ none → In rule policy.rules → ¬ Denies rule
  unfolding denied_by
  denied_by-eq-none rule e i d =
      cc (find-eq-none (λ r. r.deny) _ rule e ((In-matched_rules rule).1 (i, d.0)), d.1)

  pub denied_by-eq-some :
      (rule : Rule)
      → denied_by lower policy identity ≡ some rule
      → In rule policy.rules × Denies rule
  unfolding denied_by
  denied_by-eq-some rule e =
      let (i, d) = find-eq-some (λ r. r.deny) _ rule e in
      let (j, m) = (In-matched_rules rule).0 i in (j, (m, d))

  In-grants_of :
      (role permission : String)
      → In permission (grants_of policy role)
      → (names : List String) × (lookup policy.roles role ≡ some names) × In permission names
  unfolding grants_of
  In-grants_of role permission i = elim (Option-cases (lookup policy.roles role)) [
    | inl missing ↦ absurd (rw missing at i)
    | inr (names, found) ↦ (names, found, rw found at i)
  ]

  grants_of-lookup :
      (role : String) (names : List String)
      → lookup policy.roles role ≡ some names
      → grants_of policy role ≡ names
  unfolding grants_of
  grants_of-lookup role names e = rw e

  no_deny_roles :
      denied_by lower policy identity ≡ none
      → held_roles lower policy identity
        ≡ dedup (flat_map (λ rule. rule.roles) (matched_rules lower policy identity))
  unfolding held_roles
  no_deny_roles e = rw e

  no_deny_permissions :
      denied_by lower policy identity ≡ none
      → held_permissions lower policy identity
        ≡ dedup (flat_map (grants_of policy) (held_roles lower policy identity))
  unfolding held_permissions
  no_deny_permissions e = rw e

  pub deny_empties :
      (rule : Rule)
      → denied_by lower policy identity ≡ some rule
      → (held_roles lower policy identity ≡ []) × (held_permissions lower policy identity ≡ [])
  unfolding held_permissions held_roles
  deny_empties rule e = (rw e, rw e)

  -- The roles held are those that some matching rule names.
  pub held_roles_iff :
      (role : String)
      → denied_by lower policy identity ≡ none
      → In role (held_roles lower policy identity) ↔ (
          (rule : Rule) × In rule policy.rules
          × (matches lower rule.match identity ≡ true)
          × In role rule.roles)
  held_roles_iff role e = (
    λ i.
        let j = (In-dedup _ role).0 (subst (λ l. In role l) (no_deny_roles e) i) in
        let (rule, k, named) = In-flat_map (λ r. r.roles) role _ j in
        let (listed, m) = (In-matched_rules rule).0 k in (rule, listed, m, named),
    λ h.
        let k = (In-matched_rules h.0).1 (h.1, h.2) in
        let j = flat_map_of_In (λ r. r.roles) role h.0 _ k h.3 in
        subst (λ l. In role l) (sym (no_deny_roles e)) ((In-dedup _ role).1 j),
  )

  -- The permissions held are those that some role held grants.
  pub held_permissions_iff :
      (permission : String)
      → denied_by lower policy identity ≡ none
      → In permission (held_permissions lower policy identity) ↔ (
          (role : String) × (names : List String) × In role (held_roles lower policy identity)
          × (lookup policy.roles role ≡ some names)
          × In permission names)
  held_permissions_iff permission e = (
    λ i.
        let j =
          (In-dedup _ permission).0 (subst (λ l. In permission l) (no_deny_permissions e) i) in
        let (role, held, granted) = In-flat_map (grants_of policy) permission _ j in
        let (names, found, listed) = In-grants_of role permission granted in
        (role, names, held, found, listed),
    λ h.
        let listed = subst (λ l. In permission l) (sym (grants_of-lookup h.0 h.1 h.3)) h.4 in
        let j = flat_map_of_In (grants_of policy) permission h.0 _ h.2 listed in
        subst (λ l. In permission l) (sym (no_deny_permissions e)) ((In-dedup _ permission).1 j),
  )

  star_or_own :
      (permission : String)
      → denied_by lower policy identity ≡ none
      → (In "*" (held_permissions lower policy identity)
          ⊎ In permission (held_permissions lower policy identity))
        ↔ ((rule : Rule) × In rule policy.rules × Grants rule permission)
  star_or_own permission e = (
    λ h. elim h [
      | inl star ↦
          let (role, names, held, found, listed) = (held_permissions_iff "*" e).0 star in
          let (rule, i, m, named) = (held_roles_iff role e).0 held in
          (rule, i, (m, (role, names, named, found, inl listed)))
      | inr own ↦
          let (role, names, held, found, listed) = (held_permissions_iff permission e).0 own in
          let (rule, i, m, named) = (held_roles_iff role e).0 held in
          (rule, i, (m, (role, names, named, found, inr listed)))
    ],
    λ h.
        let g = h.2.1 in
        let held = (held_roles_iff g.0 e).1 (h.0, h.1, h.2.0, g.2) in
        elim g.4 [
          | inl star ↦ inl ((held_permissions_iff "*" e).1 (g.0, g.1, held, g.3, star))
          | inr own ↦ inr ((held_permissions_iff permission e).1 (g.0, g.1, held, g.3, own))
        ],
  )

  module _ (p : Principal) (decided : decide lower policy identity ≡ ok p) where
    pub decide-Held :
        Held identity (held_roles lower policy identity) (held_permissions lower policy identity) p
    unfolding decide
    decide-Held = create_principal-Held identity _ _ p decided

    -- A principal can do exactly what the rules allow: some matching rule names a role that grants the
    -- permission, or grants `*`, and no matching rule denies.
    pub decide-can_iff : (permission : String) → (can p permission ≡ true) ↔ IsAllowed permission
    decide-can_iff permission = (
      λ h. elim (Option-cases (denied_by lower policy identity)) [
        | inl e ↦ (
          λ rule i. denied_by-eq-none rule e i,
          (star_or_own permission e).0 (elim ((can_iff p permission).0 h) [
            | inl star ↦ inl ((decide-Held.permissions_iff "*").0 star)
            | inr own ↦ inr ((decide-Held.permissions_iff permission).0 own)
          ]),
        )
        | inr (rule, e) ↦ absurd (elim ((can_iff p permission).0 h) [
          | inl star ↦ nothing rule e "*" star
          | inr own ↦ nothing rule e permission own
        ])
      ],
      λ h. elim (Option-cases (denied_by lower policy identity)) [
        | inl e ↦ (can_iff p permission).1 (elim ((star_or_own permission e).1 h.1) [
          | inl star ↦ inl ((decide-Held.permissions_iff "*").1 star)
          | inr own ↦ inr ((decide-Held.permissions_iff permission).1 own)
        ])
        | inr (rule, e) ↦ let (i, d) = denied_by-eq-some rule e in absurd (h.0 rule i d)
      ],
    )
      where
        nothing :
            (rule : Rule)
            → denied_by lower policy identity ≡ some rule
            → (s : String) → In s p.permissions
            → ⊥
        nothing rule e s i =
            subst (λ l. In s l) (deny_empties rule e).1 ((decide-Held.permissions_iff s).0 i)

    -- One matching deny rule leaves the principal with no role and no permission, whatever the other
    -- rules grant.
    pub deny_wins :
        (rule : Rule)
        → In rule policy.rules
        → Denies rule
        → (p.roles ≡ []) × (p.permissions ≡ []) × ((s : String) → can p s ≡ false)
    deny_wins rule i d = elim (Option-cases (denied_by lower policy identity)) [
      | inl e ↦ absurd (denied_by-eq-none rule e i d)
      | inr (first, e) ↦
          let no_permission : p.permissions ≡ [] = eq-nil p.permissions (λ s j.
            subst (λ l. In s l) (deny_empties first e).1 ((decide-Held.permissions_iff s).0 j)) in
          (
            eq-nil p.roles (λ s j.
                subst (λ l. In s l) (deny_empties first e).0 ((decide-Held.roles_iff s).0 j)),
            no_permission,
            λ s. unfold can in rw no_permission,
          )
    ]

    -- A principal's lists hold nothing twice.
    pub decide-Distinct : Distinct p.roles × Distinct p.permissions
    decide-Distinct = (decide-Held.roles_distinct, decide-Held.permissions_distinct)
