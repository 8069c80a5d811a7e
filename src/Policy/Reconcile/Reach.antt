-- ===== src/Policy/Reconcile/Reach.antt =====
-- When `reconcile` finds fault: with a capability that no role reaches, and with a permission that no
-- capability requires.
use mcp_authz.Base.{
  Bool, true, false, not, String, ◌≡◌, refl, sym, ap, ◌∙◌, ◌↔◌, ◌⊎◌, inl, inr, ◌≢◌, List, [], ◌∷◌,
  none, In, In-filter, eq-nil, lookup, lookup-eq-some, keys, In-keys, lookup_sound, is_some, any,
  any-eq-true, any_of_In, Bool-cases, Option-cases, eq_iff, eq_refl, ◌==◌, subst,
}
use mcp_authz.Policy.Reconcile.{
  add_grant, add_role, granted_from, granted_by, when_any, unreachable, unused, reconcile,
}

add_grant-keys :
    (role : String) (table : List (String × List String)) (permission p : String)
    → In p (keys (add_grant role table permission)) ↔ (In p (keys table) ⊎ (permission ≡ p))
unfolding add_grant
add_grant-keys role [] permission p = (
  λ h. elim h [ inl e ↦ inr e | inr f ↦ absurd f ],
  λ h. elim h [ inl f ↦ absurd f | inr e ↦ inl e ],
)
add_grant-keys role ((q, by) ∷ rest) permission p = elim (Bool-cases (q == permission)) [
  | inl same ↦
      rw same
        (λ h. inl h, λ h. elim h [ inl i ↦ i | inr e ↦ inl ((eq_iff q permission).0 same ∙ e) ])
  | inr other ↦ rw other (
    λ h. elim h [
      | inl e ↦ inl (inl e)
      | inr i ↦ elim ((add_grant-keys role rest permission p).0 i) [
        | inl j ↦ inl (inr j)
        | inr e ↦ inr e
      ]
    ],
    λ h. elim h [
      | inl (inl e) ↦ inl e
      | inl (inr j) ↦ inr ((add_grant-keys role rest permission p).1 (inl j))
      | inr e ↦ inr ((add_grant-keys role rest permission p).1 (inr e))
    ],
  )
]

add_role-keys :
    (table : List (String × List String)) (role : String) (permissions : List String) (p : String)
    → In p (keys (add_role table role permissions)) ↔ (In p (keys table) ⊎ In p permissions)
unfolding add_role
add_role-keys table role [] p = (λ i. inl i, λ h. elim h [ inl i ↦ i | inr f ↦ absurd f ])
add_role-keys table role (q ∷ more) p = (
  λ i. elim ((add_role-keys (add_grant role table q) role more p).0 i) [
    | inl j ↦ elim ((add_grant-keys role table q p).0 j) [ inl k ↦ inl k | inr e ↦ inr (inl e) ]
    | inr j ↦ inr (inr j)
  ],
  λ h. (add_role-keys (add_grant role table q) role more p).1 (elim h [
    | inl k ↦ inl ((add_grant-keys role table q p).1 (inl k))
    | inr (inl e) ↦ inl ((add_grant-keys role table q p).1 (inr e))
    | inr (inr j) ↦ inr j
  ]),
)

-- Some role has the permission in its list.
abbrev pub IsGranted : List (String × List String) → String → Type 0
IsGranted roles p = (entry : String × List String) × In entry roles × In p entry.1

granted_from_sound :
    (table roles : List (String × List String)) (p : String)
    → In p (keys (granted_from table roles))
    → In p (keys table) ⊎ IsGranted roles p
unfolding granted_from
granted_from_sound table [] p i = inl i
granted_from_sound table ((role, ps) ∷ rest) p i =
    elim (granted_from_sound (add_role table role ps) rest p i) [
      | inl j ↦ elim ((add_role-keys table role ps p).0 j) [
        | inl k ↦ inl k
        | inr l ↦ inr ((role, ps), inl refl, l)
      ]
      | inr (entry, k, l) ↦ inr (entry, inr k, l)
    ]

granted_from_complete :
    (table roles : List (String × List String)) (p : String)
    → In p (keys table) ⊎ IsGranted roles p
    → In p (keys (granted_from table roles))
unfolding granted_from
granted_from_complete table [] p (inl i) = i
granted_from_complete table [] p (inr (entry, f, l)) = absurd f
granted_from_complete table ((role, ps) ∷ rest) p (inl i) =
    granted_from_complete (add_role table role ps) rest p
      (inl ((add_role-keys table role ps p).1 (inl i)))
granted_from_complete table ((role, ps) ∷ rest) p (inr (entry, inl e, l)) =
    granted_from_complete (add_role table role ps) rest p
      (inl ((add_role-keys table role ps p).1 (inr (subst (λ x. In p x.1) (sym e) l))))
granted_from_complete table ((role, ps) ∷ rest) p (inr (entry, inr k, l)) =
    granted_from_complete (add_role table role ps) rest p (inr (entry, k, l))

pub granted_by_iff :
    (roles : List (String × List String)) (p : String)
    → In p (keys (granted_by roles)) ↔ IsGranted roles p
unfolding granted_by
granted_by_iff roles p = (
  λ i. elim (granted_from_sound [] roles p i) [ inl f ↦ absurd f | inr g ↦ g ],
  λ g. granted_from_complete [] roles p (inr g),
)

found-IsGranted :
    (roles : List (String × List String)) (p : String)
    → (is_some (lookup (granted_by roles) p) ≡ true) ↔ IsGranted roles p
found-IsGranted roles p = (
  λ h. elim (Option-cases (lookup (granted_by roles) p)) [
    | inl missing ↦ absurd (cc (ap is_some missing))
    | inr (by, found) ↦
        (granted_by_iff roles p).0 (In-keys (granted_by roles) p by (lookup_sound _ p by found))
  ],
  λ g.
      let (by, found) = lookup-eq-some (granted_by roles) p ((granted_by_iff roles p).1 g) in
      rw found,
)

when_any-eq-none {ℓ} :
    {A : Type ℓ} (xs : List A) (text : String) → (when_any xs text ≡ none) ↔ (xs ≡ [])
when_any-eq-none [] text = (λ h. refl, λ h. refl)
when_any-eq-none (x ∷ xs) text = (λ h. cc, λ h. cc)

module _ (roles : List (String × List String)) (required : List (String × String)) where
  In-unreachable :
      (entry : String × String)
      → In entry (unreachable roles required)
        ↔ (In entry required × (¬ IsGranted roles "*") × (¬ IsGranted roles entry.1))
  unfolding unreachable
  In-unreachable entry = elim (Bool-cases (is_some (lookup (granted_by roles) "*"))) [
    | inl star ↦ rw star (λ f. absurd f, λ h. absurd (h.1 ((found-IsGranted roles "*").0 star)))
    | inr none_all ↦ rw none_all (
      λ i.
          let (j, t) = (In-filter _ entry required).0 i in
          (
            j,
            λ g. cc ((found-IsGranted roles "*").1 g),
            λ g. cc ((found-IsGranted roles entry.1).1 g, t),
          ),
      λ h. (In-filter _ entry required).1 (
        h.0,
        not_found (is_some (lookup (granted_by roles) entry.1))
            (λ t. h.2 ((found-IsGranted roles entry.1).0 t)),
      ),
    )
  ]
    where
      not_found : (b : Bool) → ¬ (b ≡ true) → not b ≡ true
      not_found true n = absurd (n refl)
      not_found false n = refl

  -- The boot check fails exactly when some capability requires a permission that no role grants while
  -- no role grants `*`.
  pub reconcile-error_iff : ((reconcile roles required).error ≡ none) ↔ (
      (entry : String × String) → In entry required → IsGranted roles "*" ⊎ IsGranted roles entry.1)
  unfolding reconcile
  reconcile-error_iff = (
    λ e entry i.
        let empty = (when_any-eq-none (unreachable roles required) _).0 e in
        reached entry i (λ h. subst (λ l. In entry l) empty ((In-unreachable entry).1 h)),
    λ all. (when_any-eq-none (unreachable roles required) _).1 (
        eq-nil _ (λ entry i.
          let (j, n, m) = (In-unreachable entry).0 i in
          elim (all entry j) [ inl star ↦ n star | inr own ↦ m own ])),
  )
    where
      reached :
          (entry : String × String)
          → In entry required
          → ¬ (In entry required × (¬ IsGranted roles "*") × (¬ IsGranted roles entry.1))
          → IsGranted roles "*" ⊎ IsGranted roles entry.1
      reached entry i n = elim (Bool-cases (is_some (lookup (granted_by roles) "*"))) [
        | inl star ↦ inl ((found-IsGranted roles "*").0 star)
        | inr no_star ↦ elim (Bool-cases (is_some (lookup (granted_by roles) entry.1))) [
          | inl own ↦ inr ((found-IsGranted roles entry.1).0 own)
          | inr no_own ↦ absurd (
              n (
                i,
                λ g. cc ((found-IsGranted roles "*").1 g),
                λ g. cc ((found-IsGranted roles entry.1).1 g),
              ))
        ]
      ]

  -- It warns exactly when some role grants a permission other than `*` that no capability requires.
  pub reconcile-warning_iff :
      ((reconcile roles required).warning ≡ none)
      ↔ ((p : String) → IsGranted roles p → p ≢ "*" → (label : String) × In (label, p) required)
  unfolding reconcile unused
  reconcile-warning_iff = (
    λ e p g n.
        let empty = (when_any-eq-none (unused roles required) _).0 e in
        let (by, found) = lookup-eq-some (granted_by roles) p ((granted_by_iff roles p).1 g) in
        let here = lookup_sound (granted_by roles) p by found in
        elim (Bool-cases (any (λ demand. demand.1 == p) required)) [
          | inl demanded ↦ demand_of p demanded
          | inr idle ↦ absurd (
              subst (λ l. In (p, by) l) empty
                ((In-filter _ (p, by) _).1
                  ((In-filter _ (p, by) (granted_by roles)).1 (here, differs p n), rw idle)))
        ],
    λ all. (when_any-eq-none (unused roles required) _).1 (
        eq-nil _ (λ entry i.
          let (j, idle) = (In-filter _ entry _).0 i in
          let (k, other) = (In-filter _ entry (granted_by roles)).0 j in
          let g = (granted_by_iff roles entry.0).0 (In-keys (granted_by roles) entry.0 entry.1 k) in
          let (label, l) = all entry.0 g (λ e. cc ((eq_iff entry.0 "*").1 e, other)) in
          let hit =
            any_of_In (λ demand. demand.1 == entry.0) (label, entry.0) required l
              (eq_refl entry.0) in
          cc (hit, idle))),
  )
    where
      demand_of :
          (p : String)
          → any (λ demand. demand.1 == p) required ≡ true
          → (label : String) × In (label, p) required
      demand_of p h =
          let (demand, i, t) = any-eq-true (λ demand. demand.1 == p) required h in
          (demand.0, subst (λ x. In (demand.0, x) required) ((eq_iff demand.1 p).0 t) i)

      differs : (p : String) → p ≢ "*" → not (p == "*") ≡ true
      differs p n = elim (Bool-cases (p == "*")) [
        | inl star ↦ absurd (n ((eq_iff p "*").0 star))
        | inr other ↦ rw other
      ]
