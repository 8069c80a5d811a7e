-- ===== src/Policy/Validate/Rules.antt =====
-- What the rules of a policy that `definePolicy` accepts satisfy.
use mcp_authz.Base.{
  ℕ, suc, Bool, true, false, not, ◌&&◌, String, ◌≡◌, refl, ◌⊎◌, inl, inr, ◌≢◌, List, [], ◌∷◌, arith,
  some, ok, ◌>>=◌, In, Distinct, contains, contains_iff, dedup, In-dedup, dedup-Distinct, subst,
}
use mcp_authz.Json.{Json, undefined, arr, items, nil, cons, record?, own}
use mcp_authz.Policy.{Rule, Match, bad_role}
use mcp_authz.Policy.Validate.{
  all_defined, validate_rule, validate_rules, every_name, role_names, deny_flag, validate_match,
  is_undefined, require,
}

all_defined_sound :
    (defined : List String) (at : ℕ) (names : List String) (role : String)
    → all_defined defined at names ≡ ok tt
    → In role names
    → In role defined
unfolding all_defined
all_defined_sound defined at [] role e i = absurd i
all_defined_sound defined at (name ∷ names) role e (inl same) =
    let inside : contains defined name ≡ true = ground arith in
    (contains_iff defined role).0 (subst (λ x. contains defined x ≡ true) same inside)
all_defined_sound defined at (name ∷ names) role e (inr i) =
    all_defined_sound defined at names role (ground arith) i

dedup-ne-nil : (x : String) (xs : List String) → dedup (x ∷ xs) ≢ []
dedup-ne-nil x xs e = subst (λ l. In x l) e ((In-dedup (x ∷ xs) x).1 (inl refl))

-- A list of names that is not empty gives a role at least.
every_name-cons :
    (v : Json) (vs : List Json) (names : List String)
    → every_name (v ∷ vs) ≡ some names
    → dedup names ≢ []
unfolding every_name
every_name-cons v vs names e = let (s, more, same) = parts in rw same (dedup-ne-nil s more)
  where
    parts : (s : String) × (more : List String) × (names ≡ s ∷ more)
    parts = ground arith

module _ (at : ℕ) (v : Json) (vs : List Json) (names : List String) where
  named_roles :
      (do ns ← require (every_name (v ∷ vs)) (bad_role at); ok (dedup ns)) ≡ ok names
      → Distinct names × (names ≢ [])
  named_roles e =
      let (ns, named, same) = parts in rw same (dedup-Distinct ns, every_name-cons v vs ns named)
    where
      parts : (ns : List String) × (every_name (v ∷ vs) ≡ some ns) × (names ≡ dedup ns)
      parts = ground arith

-- A `role` that is there names a role at least, and names none twice.
role_names_sound :
    (at : ℕ) (value : Json) (names : List String)
    → role_names at value ≡ ok names
    → Distinct names × ((is_undefined value ≡ true) ⊎ (names ≢ []))
unfolding role_names is_undefined
role_names_sound at undefined names e =
    let same : [] ≡ names = ground arith in rw (← same) (tt, inl refl)
role_names_sound at (arr nil) names e = absurd (ground arith)
role_names_sound at (arr (cons v vs)) names e =
    let (d, n) = named_roles at v (items vs) names e in (d, inr n)
role_names_sound at value names e = let (d, n) = named_roles at value [] names e in (d, inr n)

-- A rule that stands at the index it says, names defined roles only, none twice, and grants a role at
-- least unless it denies.
pub record RuleIsValid (defined : List String) (at : ℕ) (rule : Rule) : Type 0 where
  pub index : rule.index ≡ at
  pub defined_roles : (role : String) → In role rule.roles → In role defined
  pub distinct : Distinct rule.roles
  pub says : (rule.deny ≡ true) ⊎ (rule.roles ≢ [])

validate_rule-RuleIsValid :
    (defined : List String) (at : ℕ) (value : Json) (rule : Rule)
    → validate_rule defined at value ≡ ok rule
    → RuleIsValid defined at rule
unfolding validate_rule
validate_rule-RuleIsValid defined at value rule e =
    let (fs, deny, names, match, _, _, said, named, all, _, same) = parts in
    let (d, n) = role_names_sound at (own fs "role") names named in
    rw same (record {
      index = refl;
      defined_roles = λ role i. all_defined_sound defined at names role all i;
      distinct = d;
      says = elim n [ inl missing ↦ inl (ground arith) | inr some_role ↦ inr some_role ];
    })
  where
    parts :
        (fs : List (String × Json)) × (deny : Bool) × (names : List String) × (match : Match)
        × (record? value ≡ some fs)
        × (deny_flag at (own fs "deny") ≡ ok deny)
        × ((not deny && is_undefined (own fs "role")) ≡ false)
        × (role_names at (own fs "role") ≡ ok names)
        × (all_defined defined at names ≡ ok tt)
        × (validate_match at (own fs "match") ≡ ok match)
        × (rule ≡ record { index = at; match = match; deny = deny; roles = names })
    parts = ground arith

-- Each rule is valid at its place, counted from `at`.
abbrev pub RulesAreValid : List String → ℕ → List Rule → Type 0
RulesAreValid defined at [] = Unit
RulesAreValid defined at (rule ∷ rules) =
    RuleIsValid defined at rule × RulesAreValid defined (suc at) rules

pub validate_rules-RulesAreValid :
    (defined : List String) (at : ℕ) (values : List Json) (rules : List Rule)
    → validate_rules defined at values ≡ ok rules
    → RulesAreValid defined at rules
unfolding validate_rules
validate_rules-RulesAreValid defined at [] rules e =
    let same : [] ≡ rules = ground arith in rw (← same) tt
validate_rules-RulesAreValid defined at (value ∷ values) rules e =
    let (rule, rest, er, es, same) = parts in
    rw same (
      validate_rule-RuleIsValid defined at value rule er,
      validate_rules-RulesAreValid defined (suc at) values rest es,
    )
  where
    parts :
        (rule : Rule) × (rest : List Rule) × (validate_rule defined at value ≡ ok rule)
        × (validate_rules defined (suc at) values ≡ ok rest)
        × (rules ≡ rule ∷ rest)
    parts = ground arith
