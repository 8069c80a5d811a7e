-- ===== src/Policy/Validate/Sound.antt =====
-- What a policy that `definePolicy` accepts satisfies.
use mcp_authz.Base.{
  true, false, ◌&&◌, String, ◌≡◌, refl, sym, ap, ap₂, ◌∙◌, inl, inr, ◌≢◌, List, [], ◌∷◌, arith,
  Option, none, some, ok, In, All, In-All, All-of_In, Distinct, contains, contains_iff, insert,
  insert_sound, insert-Distinct, keys, length, ltb, Bool-cases, eq_iff, ◌==◌, subst,
}
use mcp_authz.Json.{Json, str, arr, items}
use mcp_authz.Policy.{Place, role_field}
use mcp_authz.Policy.Held.{IsNamed}
use mcp_authz.Policy.Validate.{
  collect_strings, string_list, all_listed, validate_role, validate_roles, array?,
}

-- A list of permission strings: none empty, none twice.
abbrev pub IsNameList : List String → Type 0
IsNameList xs = All IsNamed xs × Distinct xs

insert-IsNamed :
    (seen : List String) (s : String) → All IsNamed seen → IsNamed s → All IsNamed (insert seen s)
insert-IsNamed seen s h k = All-of_In IsNamed (insert seen s) (λ a i.
    elim (insert_sound seen s a i) [
      | inl old ↦ In-All IsNamed a seen h old
      | inr new ↦ subst IsNamed new k
    ])

collect_strings-IsNameList :
    (at : Place) (seen : List String) (vs : List Json) (ys : List String)
    → IsNameList seen
    → collect_strings at seen vs ≡ ok ys
    → IsNameList ys
unfolding collect_strings
collect_strings-IsNameList at seen [] ys h e = subst IsNameList (ground arith) h
collect_strings-IsNameList at seen (str s ∷ vs) ys h e =
    let named : IsNamed s = ground arith in
    collect_strings-IsNameList at (insert seen s) vs ys
      (insert-IsNamed seen s h.0 named, insert-Distinct seen s h.1) (ground arith)
collect_strings-IsNameList at seen (v ∷ vs) ys h e = cc

pub string_list-IsNameList :
    (at : Place) (value : Json) (ys : List String) → string_list at value ≡ ok ys → IsNameList ys
unfolding string_list array?
string_list-IsNameList at (arr vs) ys e = collect_strings-IsNameList at [] (items vs) ys (tt, tt) e
string_list-IsNameList at _ ys e = cc

-- The catalogue, if there is one, has the permission.
abbrev pub IsListed : Option (List String) → String → Type 0
IsListed none p = Unit
IsListed (some known) p = In p known

all_listed_sound :
    (known : Option (List String)) (role : String) (ps : List String) (p : String)
    → all_listed known role ps ≡ ok tt
    → In p ps
    → p ≢ "*"
    → IsListed known p
unfolding all_listed
all_listed_sound none role ps p e i n = tt
all_listed_sound (some known) role [] p e i n = absurd i
all_listed_sound (some known) role (q ∷ ps) p e (inl same) n =
    (contains_iff known p).0 (subst (λ x. contains known x ≡ true) same inside)
  where
    other : (q == "*") ≡ false
    other = elim (Bool-cases (q == "*")) [
      | inl star ↦ absurd (n (sym same ∙ (eq_iff q "*").0 star))
      | inr differs ↦ differs
    ]

    inside : contains known q ≡ true
    inside = ground (arith, other)
all_listed_sound (some known) role (q ∷ ps) p e (inr i) n =
    all_listed_sound (some known) role ps p (ground arith) i n

-- A role with its permissions, as the catalogue allows them.
pub record RoleIsValid (known : Option (List String)) (entry : String × List String) : Type 0 where
  pub named : IsNamed entry.0
  pub names : IsNameList entry.1
  pub lone_star : In "*" entry.1 → entry.1 ≡ "*" ∷ []
  pub listed : (p : String) → In p entry.1 → p ≢ "*" → IsListed known p

lone :
    (ps : List String) → (contains ps "*" && ltb 1 (length ps)) ≡ false → In "*" ps → ps ≡ "*" ∷ []
lone [] e i = absurd i
lone (p ∷ []) e (inl same) = rw same
lone (p ∷ []) e (inr f) = absurd f
lone (p ∷ q ∷ ps) e i = let star = (contains_iff (p ∷ q ∷ ps) "*").1 i in absurd (ground arith)

validate_role-RoleIsValid :
    (known : Option (List String)) (spec : String × Json) (entry : String × List String)
    → validate_role known spec ≡ ok entry
    → RoleIsValid known entry × (entry.0 ≡ spec.0)
unfolding validate_role
validate_role-RoleIsValid known (role, value) entry e =
    let (validated, named, listed, alone, all, same) = parts in
    (
      subst (RoleIsValid known) (sym same) (record {
        named = named;
        names = string_list-IsNameList (role_field role) value validated listed;
        lone_star = lone validated alone;
        listed = λ p i n. all_listed_sound known role validated p all i n;
      }),
      ap (λ x. x.0) same,
    )
  where
    parts :
        (validated : List String) × IsNamed role
        × (string_list (role_field role) value ≡ ok validated)
        × ((contains validated "*" && ltb 1 (length validated)) ≡ false)
        × (all_listed known role validated ≡ ok tt)
        × (entry ≡ (role, validated))
    parts = ground arith

pub validate_roles-RoleIsValid :
    (known : Option (List String)) (specs : List (String × Json))
    (roles : List (String × List String))
    → validate_roles known specs ≡ ok roles
    → All (RoleIsValid known) roles × (keys roles ≡ keys specs)
unfolding validate_roles
validate_roles-RoleIsValid known [] roles e =
    let same : [] ≡ roles = ground arith in rw (← same) (tt, refl)
validate_roles-RoleIsValid known (spec ∷ specs) roles e =
    let (entry, rest, er, es, same) = parts in
    let (valid, name) = validate_role-RoleIsValid known spec entry er in
    let (valids, names) = validate_roles-RoleIsValid known specs rest es in
    rw same ((valid, valids), ap₂ ◌∷◌ name names)
  where
    parts :
        (entry : String × List String) × (rest : List (String × List String)) × (validate_role known
            spec
          ≡ ok entry)
        × (validate_roles known specs ≡ ok rest)
        × (roles ≡ entry ∷ rest)
    parts = ground arith
