-- ===== src/Proxy/Setup/Located.antt =====
-- proxy.ts: what `buildResourceIndex` asks of the labels before it builds an index.
use mcp_authz.Base.{
  Bool, true, false, not, String, ◌≡◌, refl, sym, ap, ◌∙◌, inl, inr, List, [], ◌∷◌, Option, none,
  some, ok, In, is_some, keys, lookup, lookup_sound, In-keys, strip_prefix, strip_prefix_iff,
  has_char, Bool-cases, Option-cases, find, find-eq-none, if◌then◌else◌, ◌^^◌,
}
use mcp_authz.Proxy.Setup.{Sorted, sorted_at, sort_resources, refuse_found}

module _ (template_matches : String → String → Bool) (uris : List (String × String)) where
  pub sorted_at-unpriced :
      (label permission uri : String) (rest : Sorted template_matches)
      → (sorted_at template_matches label permission (some uri) rest).unpriced ≡ rest.unpriced
  sorted_at-unpriced label permission uri rest = elim (Bool-cases (has_char b'{' uri)) [
    | inl t ↦ rw t
    | inr f ↦ rw f
  ]

  -- Every priced resource has a URI.
  abbrev pub HaveUris : List (String × String) → Type 0
  HaveUris permissions =
      (name permission : String)
      → In ("resource:" ^^ name, permission) permissions
      → (uri : String) × (lookup uris ("resource:" ^^ name) ≡ some uri)

  uris_step :
      (label permission : String) (rest : List (String × String))
      → ((sort_resources template_matches uris rest).unpriced ≡ [] → HaveUris rest)
      → (is_resource : Bool) → is_some (strip_prefix "resource:" label) ≡ is_resource
      → (found : Option String) → lookup uris label ≡ found
      → (if is_resource
          then sorted_at template_matches label permission found
              (sort_resources template_matches uris rest)
          else sort_resources template_matches uris rest).unpriced
        ≡ []
      → HaveUris ((label, permission) ∷ rest)
  uris_step label permission rest hyp false e found f h name p (inr i) = hyp h name p i
  uris_step label permission rest hyp false e found f h name p (inl same) =
      let at : label ≡ "resource:" ^^ name = ap (λ (x : String × String). x.0) same in
      let t : true ≡ false =
        sym (ap is_some ((strip_prefix_iff "resource:" label name).1 at)) ∙ e in
      cc t
  uris_step label permission rest hyp true e none f h name p i = cc
  uris_step label permission rest hyp true e (some uri) f h name p (inl same) =
      let at : label ≡ "resource:" ^^ name = ap (λ (x : String × String). x.0) same in
      (uri, ap (lookup uris) (sym at) ∙ f)
  uris_step label permission rest hyp true e (some uri) f h name p (inr i) =
      hyp
        (sym (sorted_at-unpriced label permission uri (sort_resources template_matches uris rest))
          ∙ h)
        name p i

  pub sort_resources-HaveUris :
      (permissions : List (String × String))
      → (sort_resources template_matches uris permissions).unpriced ≡ []
      → HaveUris permissions
  unfolding sort_resources
  sort_resources-HaveUris [] h = λ name p i. absurd i
  sort_resources-HaveUris ((label, permission) ∷ rest) h =
      uris_step label permission rest (sort_resources-HaveUris rest) _ refl _ refl h

  -- Every URI is that of a label that has a price.
  abbrev pub ArePriced : List (String × String) → Type 0
  ArePriced permissions = (label : String) → In label (keys uris) → In label (keys permissions)

  pub refuse_found-ArePriced :
      (permissions : List (String × String))
      → refuse_found template_matches
          (find (λ label. not (is_some (lookup permissions label))) (keys uris))
        ≡ ok tt
      → ArePriced permissions
  refuse_found-ArePriced permissions h label i = sought (find unpriced (keys uris)) refl h
    where
      unpriced : String → Bool
      unpriced name = not (is_some (lookup permissions name))

      sought :
          (missing : Option String)
          → find unpriced (keys uris) ≡ missing
          → refuse_found template_matches missing ≡ ok tt
          → In label (keys permissions)
      sought (some other) e k = cc
      sought none e k = elim (Option-cases (lookup permissions label)) [
        | inl missing ↦
            let t : true ≡ false =
              sym (ap (λ o. not (is_some o)) missing)
              ∙ find-eq-none unpriced (keys uris) label e i in
            cc t
        | inr (permission, found) ↦
            In-keys permissions label permission (lookup_sound permissions label permission found)
      ]
