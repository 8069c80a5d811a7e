-- ===== src/Policy/Held.antt =====
-- What a principal made by `createPrincipal` holds.
use mcp_authz.Base.{
  true, false, String, ◌≡◌, refl, sym, ◌↔◌, ◌⊎◌, inl, inr, List, [], ◌∷◌, arith, ok, In, All,
  insert, insert_sound, insert_old, insert_new, dedup, In-dedup, dedup-Distinct, Distinct, contains,
  contains_iff, Bool-cases, ◌==◌, subst,
}
use mathlib.Core.Bool.{or-true}
use mcp_authz.Policy.{
  Identity, Principal, Place, principal_roles, principal_permissions, distinct_strings, has_empty,
  create_principal, can,
}

abbrev pub IsNamed : String → Type 0
IsNamed s = (s == "") ≡ false

distinct_strings_sound :
    (at : Place) (seen xs ys : List String) (a : String)
    → distinct_strings at seen xs ≡ ok ys
    → In a ys
    → In a seen ⊎ In a xs
unfolding distinct_strings
distinct_strings_sound at seen [] ys a e i =
    let same : seen ≡ ys = ground arith in inl (subst (λ l. In a l) (sym same) i)
distinct_strings_sound at seen (x ∷ xs) ys a e i =
    elim (distinct_strings_sound at (insert seen x) xs ys a (ground arith) i) [
      | inl j ↦ elim (insert_sound seen x a j) [ inl o ↦ inl o | inr s ↦ inr (inl s) ]
      | inr j ↦ inr (inr j)
    ]

distinct_strings_complete :
    (at : Place) (seen xs ys : List String) (a : String)
    → distinct_strings at seen xs ≡ ok ys
    → In a seen ⊎ In a xs
    → In a ys
unfolding distinct_strings
distinct_strings_complete at seen [] ys a e (inl i) =
    let same : seen ≡ ys = ground arith in subst (λ l. In a l) same i
distinct_strings_complete at seen [] ys a e (inr f) = absurd f
distinct_strings_complete at seen (x ∷ xs) ys a e i =
    distinct_strings_complete at (insert seen x) xs ys a (ground arith) (shift i)
  where
    shift : In a seen ⊎ In a (x ∷ xs) → In a (insert seen x) ⊎ In a xs
    shift (inl j) = inl (insert_old seen x a j)
    shift (inr (inl s)) = inl (subst (λ y. In y (insert seen x)) s (insert_new seen x))
    shift (inr (inr j)) = inr j

distinct_strings_total :
    (at : Place) (seen xs : List String)
    → All IsNamed xs
    → (ys : List String) × (distinct_strings at seen xs ≡ ok ys)
unfolding distinct_strings
distinct_strings_total at seen [] h = (seen, refl)
distinct_strings_total at seen (x ∷ xs) h =
    let (ys, e) = distinct_strings_total at (insert seen x) xs h.1 in (ys, rw h.0 e)

-- What a principal has been made from.
pub record Held (identity : Identity) (roles permissions : List String) (p : Principal)
    : Type 0 where
  pub issuer : p.issuer ≡ identity.issuer
  pub sub : p.sub ≡ identity.sub
  pub email : p.email ≡ identity.email
  pub domain : p.domain ≡ identity.domain
  pub roles_iff : (a : String) → In a p.roles ↔ In a roles
  pub permissions_iff : (a : String) → In a p.permissions ↔ In a permissions
  pub roles_distinct : Distinct p.roles
  pub permissions_distinct : Distinct p.permissions

module _ (identity : Identity) (roles permissions : List String) where
  made :
      (p : Principal)
      → create_principal identity roles permissions ≡ ok p
      → (rs : List String) × (ps : List String) × (distinct_strings principal_roles [] roles
          ≡ ok rs)
        × (distinct_strings principal_permissions [] permissions ≡ ok ps)
        × (p ≡ record {
          issuer = identity.issuer;
          sub = identity.sub;
          email = identity.email;
          domain = identity.domain;
          roles = dedup rs;
          permissions = dedup ps;
        })
  unfolding create_principal
  made p e = ground arith

  pub create_principal-Held :
      (p : Principal)
      → create_principal identity roles permissions ≡ ok p
      → Held identity roles permissions p
  create_principal-Held p e =
      let (rs, ps, er, ep, same) = made p e in
      rw same (record {
        issuer = refl;
        sub = refl;
        email = refl;
        domain = refl;
        roles_iff = λ a. (
          λ i.
              elim (distinct_strings_sound principal_roles [] roles rs a er ((In-dedup rs a).0 i)) [
                | inl f ↦ absurd f
                | inr j ↦ j
              ],
          λ i.
              (In-dedup rs a).1
                (distinct_strings_complete principal_roles [] roles rs a er (inr i)),
        );
        permissions_iff = λ a. (
          λ i.
              elim (distinct_strings_sound principal_permissions [] permissions ps a ep
                ((In-dedup ps a).0 i)) [ inl f ↦ absurd f | inr j ↦ j ],
          λ i.
              (In-dedup ps a).1
                (distinct_strings_complete principal_permissions [] permissions ps a ep (inr i)),
        );
        roles_distinct = dedup-Distinct rs;
        permissions_distinct = dedup-Distinct ps;
      })

  -- An identity with an issuer and a subject becomes a principal, if the names are names.
  pub create_principal_total :
      IsNamed identity.sub
      → IsNamed identity.issuer
      → has_empty identity.email ≡ false
      → All IsNamed roles
      → All IsNamed permissions
      → (p : Principal) × (create_principal identity roles permissions ≡ ok p)
  unfolding create_principal
  create_principal_total s i e hr hp =
      let (rs, er) = distinct_strings_total principal_roles [] roles hr in
      let (ps, ep) = distinct_strings_total principal_permissions [] permissions hp in
      (
        record {
          issuer = identity.issuer;
          sub = identity.sub;
          email = identity.email;
          domain = identity.domain;
          roles = dedup rs;
          permissions = dedup ps;
        },
        rw (s, i, e, er, ep),
      )

-- What `can` answers, from the list that it reads.
pub can_iff :
    (p : Principal) (permission : String)
    → (can p permission ≡ true) ↔ (In "*" p.permissions ⊎ In permission p.permissions)
unfolding can
can_iff p permission = (
  λ h. elim (Bool-cases (contains p.permissions "*")) [
    | inl star ↦ inl ((contains_iff p.permissions "*").0 star)
    | inr other ↦ inr ((contains_iff p.permissions permission).0 (ground arith))
  ],
  λ h. elim h [
    | inl star ↦ rw ((contains_iff p.permissions "*").1 star)
    | inr own ↦ rw ((contains_iff p.permissions permission).1 own) (or-true _)
  ],
)
