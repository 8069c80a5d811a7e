-- ===== src/Policy/Validate/WellFormed.antt =====
-- `definePolicy` accepts well-formed policies only.
use mcp_authz.Base.{
  zero, Bool, true, false, not, String, ◌≡◌, refl, ◌≢◌, List, arith, Option, none, some, ok, In,
  All, In-All, All-of_In, contains, contains-eq-false, In-dedup, dedup-Distinct, In-filter,
  In-flat_map, flat_map_of_In, keys, eq_iff, ◌==◌,
}
use mcp_authz.Json.{Json, undefined, record?, own}
use mcp_authz.Policy.{Policy, catalogue_field, Rule}
use mcp_authz.Policy.Held.{IsNamed}
use mcp_authz.Policy.Validate.{
  string_list, catalogue_of, validate_roles, validate_rules, granted_by_all, vocabulary, array?,
  define_policy,
}
use mcp_authz.Policy.Validate.Sound.{
  IsNameList, string_list-IsNameList, RoleIsValid, validate_roles-RoleIsValid,
}
use mcp_authz.Policy.Validate.Rules.{RulesAreValid, validate_rules-RulesAreValid}

-- What a policy that can be asked about a caller looks like. Its `permissions` are the vocabulary:
-- what no role may go beyond.
pub record IsWellFormed (policy : Policy) : Type 0 where
  pub roles : All (RoleIsValid (some policy.permissions)) policy.roles
  pub rules : RulesAreValid (keys policy.roles) zero policy.rules
  pub vocabulary_names : IsNameList policy.permissions
  pub vocabulary_concrete : ¬ In "*" policy.permissions

-- A catalogue that is there is a list of names without the wildcard.
CatalogueIsValid : Option (List String) → Type 0
CatalogueIsValid none = Unit
CatalogueIsValid (some names) = IsNameList names × (¬ In "*" names)

catalogue_of_sound :
    (value : Json) (known : Option (List String))
    → catalogue_of value ≡ ok known
    → CatalogueIsValid known
unfolding catalogue_of CatalogueIsValid
catalogue_of_sound undefined known e = let same : none ≡ known = ground arith in rw (← same) tt
catalogue_of_sound value known e =
    let (names, listed, concrete, same) = parts in
    rw same (
      string_list-IsNameList catalogue_field value names listed,
      contains-eq-false names "*" concrete,
    )
  where
    parts :
        (names : List String) × (string_list catalogue_field value ≡ ok names)
        × (contains names "*" ≡ false)
        × (known ≡ some names)
    parts = ground arith

module _ (roles : List (String × List String)) (valid : All (RoleIsValid none) roles) where
  vocabulary-IsNameList : IsNameList (vocabulary none roles) × (¬ In "*" (vocabulary none roles))
  unfolding vocabulary
  vocabulary-IsNameList = (
    (
      All-of_In IsNamed _ (λ p i.
          let j = ((In-filter _ p (granted_by_all roles)).0 ((In-dedup _ p).0 i)).0 in
          let (entry, k, l) = In-flat_map (λ r. r.1) p roles j in
          In-All IsNamed p entry.1 (In-All (RoleIsValid none) entry roles valid k).names.0 l),
      dedup-Distinct _,
    ),
    λ i. absurd (star (((In-filter _ "*" (granted_by_all roles)).0 ((In-dedup _ "*").0 i)).1)),
  )
    where
      star : not ("*" == "*") ≡ true → ⊥
      star e = cc

  vocabulary-covers :
      (entry : String × List String) (p : String)
      → In entry roles
      → In p entry.1
      → p ≢ "*"
      → In p (vocabulary none roles)
  unfolding vocabulary
  vocabulary-covers entry p i j n = (In-dedup _ p).1 (
      (In-filter _ p (granted_by_all roles)).1
        (flat_map_of_In (λ r. r.1) p entry roles i j, other (p == "*") refl))
    where
      other : (b : Bool) → (p == "*") ≡ b → not b ≡ true
      other false e = refl
      other true e = absurd (n ((eq_iff p "*").0 e))

vocabulary_valid :
    (known : Option (List String)) (roles : List (String × List String))
    → CatalogueIsValid known
    → All (RoleIsValid known) roles
    → IsNameList (vocabulary known roles)
      × (¬ In "*" (vocabulary known roles))
      × All (RoleIsValid (some (vocabulary known roles))) roles
unfolding vocabulary CatalogueIsValid
vocabulary_valid (some names) roles c valid = (c.0, c.1, valid)
vocabulary_valid none roles c valid =
    let (names, concrete) = vocabulary-IsNameList roles valid in
    (
      names,
      concrete,
      All-of_In (RoleIsValid (some (vocabulary none roles))) roles (λ entry i.
          let r = In-All (RoleIsValid none) entry roles valid i in
          record {
            named = r.named;
            names = r.names;
            lone_star = r.lone_star;
            listed = λ p j n. vocabulary-covers roles valid entry p i j n;
          }),
    )

-- A policy that `definePolicy` accepts is well formed: every role is a named list of distinct,
-- non-empty permissions in which `*` stands alone; every rule stands at its own index, names defined
-- roles only and grants one at least unless it denies; and the policy's vocabulary is a list of
-- distinct concrete names with every permission but `*` that a role grants.
pub define_policy-IsWellFormed :
    (spec : Json) (policy : Policy) → define_policy spec ≡ ok policy → IsWellFormed policy
unfolding define_policy
define_policy-IsWellFormed spec policy e =
    let (fs, role_specs, rule_specs, known, roles, rules, _, _, _, ek, er, el, same) = parts in
    let (valid, _) = validate_roles-RoleIsValid known role_specs roles er in
    let (names, concrete, covered) =
      vocabulary_valid known roles (catalogue_of_sound _ known ek) valid in
    rw same (record {
      roles = covered;
      rules = validate_rules-RulesAreValid (keys roles) zero rule_specs rules el;
      vocabulary_names = names;
      vocabulary_concrete = concrete;
    })
  where
    parts :
        (fs : List (String × Json)) × (role_specs : List (String × Json)) × (rule_specs : List Json)
        × (known : Option (List String)) × (roles : List (String × List String)) × (rules : List
            Rule)
        × (record? spec ≡ some fs)
        × (record? (own fs "roles") ≡ some role_specs)
        × (array? (own fs "rules") ≡ some rule_specs)
        × (catalogue_of (own fs "permissions") ≡ ok known)
        × (validate_roles known role_specs ≡ ok roles)
        × (validate_rules (keys roles) zero rule_specs ≡ ok rules)
        × (policy ≡ record { roles = roles; rules = rules; permissions = vocabulary known roles })
    parts = ground arith
