-- ===== src/Proxy/Setup/Indexed.antt =====
-- proxy.ts: what the index of `buildResourceIndex` holds.
use mcp_authz.Base.{
  Bool, true, false, not, String, ◌≡◌, refl, sym, ap, subst, ◌∙◌, ◌↔◌, ◌⊎◌, inl, inr, List, [], ◌∷◌,
  ◌++◌, arith, Option, none, some, Result, ok, refuse_if-eq-ok, >>_iff, In, In-append,
  In-append_left, In-append_right, is_empty, is_some, lookup, strip_prefix, has_char, if◌then◌else◌,
  keys, strip_prefix_iff, ◌==◌, ◌^^◌,
}
use mcp_authz.Proxy.{Resource}
use mcp_authz.Proxy.Setup.{
  SetupError, Sorted, resource_at, sorted_at, sort_resources, build_resource_index,
}
use mcp_authz.Proxy.Setup.Located.{
  sorted_at-unpriced, sort_resources-HaveUris, refuse_found-ArePriced,
}

module _ (template_matches : String → String → Bool) (uris : List (String × String)) where
  -- The entry is that of a priced resource at the URI that it has: a template matches as templates do, and
  -- any other URI only itself.
  abbrev pub IsPriced : List (String × String) → Resource → Type 0
  IsPriced permissions r =
      (name permission uri : String) × In ("resource:" ^^ name, permission) permissions
      × (lookup uris ("resource:" ^^ name) ≡ some uri)
      × (r ≡ record {
        label = "resource:" ^^ name;
        permission = permission;
        pattern = uri;
        matches = if has_char b'{' uri then template_matches uri else (λ target. target == uri);
      })

  -- The same, by what the code makes of it.
  abbrev IsEntered : List (String × String) → Resource → Type 0
  IsEntered permissions r =
      (label permission uri : String) × In (label, permission) permissions
      × (is_some (strip_prefix "resource:" label) ≡ true)
      × (lookup uris label ≡ some uri)
      × (r ≡ resource_at template_matches label permission uri)

  IsEntered-iff :
      (permissions : List (String × String)) (r : Resource)
      → IsEntered permissions r ↔ IsPriced permissions r
  unfolding resource_at
  IsEntered-iff permissions r = (
    λ (label, permission, uri, i, named, found, same).
        let (name, at) = rest_of label (strip_prefix "resource:" label) refl named in
        subst
          (λ l.
            In (l, permission) permissions
            → lookup uris l ≡ some uri
            → r ≡ resource_at template_matches l permission uri
            → IsPriced permissions r)
          (sym at) (λ j k e. (name, permission, uri, j, k, e)) i found same,
    λ (name, permission, uri, i, found, same). (
      "resource:" ^^ name,
      permission,
      uri,
      i,
      ap is_some ((strip_prefix_iff "resource:" ("resource:" ^^ name) name).1 refl),
      found,
      same,
    ),
  )
    where
      rest_of :
          (label : String) (o : Option String)
          → strip_prefix "resource:" label ≡ o
          → is_some o ≡ true
          → (name : String) × (label ≡ "resource:" ^^ name)
      rest_of label none e h = cc
      rest_of label (some name) e h = (name, (strip_prefix_iff "resource:" label name).0 e)

  abbrev IsListed : Sorted template_matches → Resource → Type 0
  IsListed sorted r = In r sorted.exact ⊎ In r sorted.templated

  sorted_at-listed :
      (label permission uri : String) (rest : Sorted template_matches) (r : Resource)
      → IsListed (sorted_at template_matches label permission (some uri) rest) r
        ↔ ((resource_at template_matches label permission uri ≡ r) ⊎ IsListed rest r)
  sorted_at-listed label permission uri rest r = placed (has_char b'{' uri)
    where
      placed :
          (b : Bool)
          → IsListed
              (if b
                then record {
                  exact = rest.exact;
                  templated = resource_at template_matches label permission uri ∷ rest.templated;
                  unpriced = rest.unpriced;
                }
                else record {
                  exact = resource_at template_matches label permission uri ∷ rest.exact;
                  templated = rest.templated;
                  unpriced = rest.unpriced;
                })
              r
            ↔ ((resource_at template_matches label permission uri ≡ r) ⊎ IsListed rest r)
      placed true = (
        λ i. elim i [
          | inl j ↦ inr (inl j)
          | inr j ↦ elim j [ inl same ↦ inl same | inr k ↦ inr (inr k) ]
        ],
        λ i. elim i [
          | inl same ↦ inr (inl same)
          | inr j ↦ elim j [ inl k ↦ inl k | inr k ↦ inr (inr k) ]
        ],
      )
      placed false = (
        λ i. elim i [
          | inl j ↦ elim j [ inl same ↦ inl same | inr k ↦ inr (inl k) ]
          | inr j ↦ inr (inr j)
        ],
        λ i. elim i [
          | inl same ↦ inl (inl same)
          | inr j ↦ elim j [ inl k ↦ inl (inr k) | inr k ↦ inr k ]
        ],
      )

  -- One more label: of no resource, of one at a URI, or of one without.
  sort_step :
      (label permission : String) (rest : List (String × String)) (r : Resource)
      → ((sort_resources template_matches uris rest).unpriced ≡ []
          → IsListed (sort_resources template_matches uris rest) r ↔ IsEntered rest r)
      → (is_resource : Bool) → is_some (strip_prefix "resource:" label) ≡ is_resource
      → (found : Option String) → lookup uris label ≡ found
      → (if is_resource
          then sorted_at template_matches label permission found
              (sort_resources template_matches uris rest)
          else sort_resources template_matches uris rest).unpriced
        ≡ []
      → IsListed
          (if is_resource
            then sorted_at template_matches label permission found
                (sort_resources template_matches uris rest)
            else sort_resources template_matches uris rest)
          r
        ↔ IsEntered ((label, permission) ∷ rest) r
  sort_step label permission rest r hyp false e found f h = (
    λ i. let (l, p, u, j, k, m, n) = (hyp h).0 i in (l, p, u, inr j, k, m, n),
    λ q.
        let (l, p, u, j, k, m, n) = q in
        elim j [
          | inl same ↦ absurd (
              let at : l ≡ label = sym (ap (λ (x : String × String). x.0) same) in
              let c : true ≡ false =
                sym k ∙ ap (λ x. is_some (strip_prefix "resource:" x)) at ∙ e in
              cc c)
          | inr i ↦ (hyp h).1 (l, p, u, i, k, m, n)
        ],
  )
  sort_step label permission rest r hyp true e none f h = cc
  sort_step label permission rest r hyp true e (some uri) f h =
      let hyp' = hyp (
        sym (
          sorted_at-unpriced template_matches uris label permission uri
            (sort_resources template_matches uris rest))
        ∙ h) in
      let listed =
        sorted_at-listed label permission uri (sort_resources template_matches uris rest) r in
      (
        λ i. elim (listed.0 i) [
          | inl same ↦ (label, permission, uri, inl refl, e, f, sym same)
          | inr j ↦ let (l, p, u, k, m, n, o) = hyp'.0 j in (l, p, u, inr k, m, n, o)
        ],
        λ q.
            let (l, p, u, j, k, m, n) = q in
            elim j [
              | inl same ↦
                  let at : l ≡ label = sym (ap (λ (x : String × String). x.0) same) in
                  let pays : p ≡ permission = sym (ap (λ (x : String × String). x.1) same) in
                  let there : some u ≡ some uri = sym m ∙ ap (lookup uris) at ∙ f in
                  let where_at : u ≡ uri = ground arith in
                  listed.1 (inl (sym (n ∙ ap₃ at pays where_at)))
              | inr i ↦ listed.1 (inr (hyp'.1 (l, p, u, i, k, m, n)))
            ],
      )
    where
      ap₃ :
          {l l' p p' u u' : String}
          → l ≡ l'
          → p ≡ p'
          → u ≡ u'
          → resource_at template_matches l p u ≡ resource_at template_matches l' p' u'
      ap₃ a b c = rw (a, b, c)

  sort_resources-listed :
      (permissions : List (String × String)) (r : Resource)
      → (sort_resources template_matches uris permissions).unpriced ≡ []
      → IsListed (sort_resources template_matches uris permissions) r ↔ IsEntered permissions r
  unfolding sort_resources
  sort_resources-listed [] r h = (
    λ i. elim i [ inl f ↦ absurd f | inr f ↦ absurd f ],
    λ q. let (l, p, u, f, a, b, c) = q in absurd f,
  )
  sort_resources-listed ((label, permission) ∷ rest) r h =
      sort_step label permission rest r (sort_resources-listed rest r) _ refl _ refl h

  none_unpriced : (xs : List String) → not (is_empty xs) ≡ false → xs ≡ []
  none_unpriced [] h = refl
  none_unpriced (x ∷ xs) h = cc

  ok-injective :
      (a b : List Resource) → ◌≡◌ {A = Result SetupError (List Resource)} (ok a) (ok b) → a ≡ b
  ok-injective a b h = ground arith

  -- An index that is built holds exactly the priced resources, each with its price at the URI or template
  -- that it was given. It is built only if every priced resource was given one, and every label that was
  -- given one is priced.
  pub build_resource_index_iff :
      (permissions : List (String × String)) (index : List Resource)
      → build_resource_index template_matches permissions uris ≡ ok index
      → ((r : Resource) → In r index ↔ IsPriced permissions r)
        × ((name permission : String)
            → In ("resource:" ^^ name, permission) permissions
            → (uri : String) × (lookup uris ("resource:" ^^ name) ≡ some uri))
        × ((label : String) → In label (keys uris) → In label (keys permissions))
  unfolding build_resource_index
  build_resource_index_iff permissions index h =
      let sorted = sort_resources template_matches uris permissions in
      let (priced, rest) = refuse_if-eq-ok _ _ _ h in
      let (known, last) = (>>_iff _ (ok (sorted.exact ++ sorted.templated)) index).0 rest in
      let same = ok-injective (sorted.exact ++ sorted.templated) index last in
      let complete = none_unpriced _ priced in
      (
        λ r.
            let k = sort_resources-listed permissions r complete in
            let p = IsEntered-iff permissions r in
            subst (λ l. In r l ↔ IsPriced permissions r) same
              (
                λ i. p.0 (k.0 (In-append r sorted.exact sorted.templated i)),
                λ q. elim (k.1 (p.1 q)) [
                  | inl i ↦ In-append_left r sorted.exact sorted.templated i
                  | inr i ↦ In-append_right r sorted.exact sorted.templated i
                ],
              ),
        sort_resources-HaveUris template_matches uris permissions complete,
        refuse_found-ArePriced template_matches uris permissions known,
      )
