-- ===== src/Proxy/Setup/Scoped.antt =====
-- The keys of a scope map that is accepted.
use Prim.Native.String.append
use mcp_authz.Base.{
  Bool, true, false, not, String, ◌≡◌, refl, sym, ap, subst, ◌∙◌, inl, inr, ◌⊎◌, List, [], ◌∷◌,
  Option, none, some, ok, refuse_if-eq-ok, In, Distinct, map, In-map, map_of_In, contains-eq-false,
  insert, insert_new, insert_old, Begins, strip_prefix, strip_prefix_iff, strip_prefix-eq-none,
  is_some, lookup, lookup_sound, In-keys, keys, Bool-cases, Option-cases, ◌^^◌,
}
use mcp_authz.Ladder.{Kind, tool, prompt, resource}
use mcp_authz.Proxy.Setup.{
  route_from_scope_key, or_prompt, or_resource, or_tool, canonical, is_registered, validate_keys,
  validate_scopes,
}

-- What a key says: a label names by its prefix, and a key without one is a tool's name.
pub data Names (key : String) : Kind → String → Type 0 where
  as_tool : (name : String) → key ≡ "tool:" ^^ name → Names key tool name
  as_prompt : (name : String) → key ≡ "prompt:" ^^ name → Names key prompt name
  as_resource : (name : String) → key ≡ "resource:" ^^ name → Names key resource name
  bare :
      (¬ Begins "tool:" key)
      → (¬ Begins "prompt:" key)
      → (¬ Begins "resource:" key)
      → Names key tool key

-- The capability has a price; a tool may be priced under either spelling.
abbrev pub HasPrice : List (String × String) → Kind → String → Type 0
HasPrice permissions Kind.tool name =
    In name (keys permissions) ⊎ In ("tool:" ^^ name) (keys permissions)
HasPrice permissions Kind.prompt name = In ("prompt:" ^^ name) (keys permissions)
HasPrice permissions Kind.resource name = In ("resource:" ^^ name) (keys permissions)

-- No two keys of the list name the same.
abbrev pub NameApart : List String → Type 0
NameApart [] = Unit
NameApart (key ∷ rest) =
    ((other : String) (kind : Kind) (name : String)
      → In other rest
      → Names key kind name
      → ¬ Names other kind name)
    × NameApart rest

stripped : (p s : String) → ¬ Begins p s → strip_prefix p s ≡ none
stripped p s n = elim (Option-cases (strip_prefix p s)) [
  | inl e ↦ e
  | inr (rest, e) ↦ absurd (n (rest, (strip_prefix_iff p s rest).0 e))
]

parsed : (key : String) → Names key (route_from_scope_key key).0 (route_from_scope_key key).1
unfolding route_from_scope_key
parsed key = by_tool (strip_prefix "tool:" key) refl
  where
    by_resource :
        (o : Option String)
        → strip_prefix "resource:" key ≡ o
        → (¬ Begins "tool:" key)
        → (¬ Begins "prompt:" key)
        → Names key (or_tool key o).0 (or_tool key o).1
    by_resource (some name) e t q = as_resource name ((strip_prefix_iff _ key name).0 e)
    by_resource none e t q = bare t q (strip_prefix-eq-none _ key e)

    by_prompt :
        (o : Option String)
        → strip_prefix "prompt:" key ≡ o
        → (¬ Begins "tool:" key)
        → Names key (or_resource key o).0 (or_resource key o).1
    by_prompt (some name) e t = as_prompt name ((strip_prefix_iff _ key name).0 e)
    by_prompt none e t =
        by_resource (strip_prefix "resource:" key) refl t (strip_prefix-eq-none _ key e)

    by_tool :
        (o : Option String)
        → strip_prefix "tool:" key ≡ o
        → Names key (or_prompt key o).0 (or_prompt key o).1
    by_tool (some name) e = as_tool name ((strip_prefix_iff _ key name).0 e)
    by_tool none e = by_prompt (strip_prefix "prompt:" key) refl (strip_prefix-eq-none _ key e)

prompt_is_no_tool : (name : String) → strip_prefix "tool:" ("prompt:" ^^ name) ≡ none
unfolding strip_prefix
prompt_is_no_tool name = rw (append.cons "p" "rompt:" name) refl

resource_is_no_tool : (name : String) → strip_prefix "tool:" ("resource:" ^^ name) ≡ none
unfolding strip_prefix
resource_is_no_tool name = rw (append.cons "r" "esource:" name) refl

resource_is_no_prompt : (name : String) → strip_prefix "prompt:" ("resource:" ^^ name) ≡ none
unfolding strip_prefix
resource_is_no_prompt name = rw (append.cons "r" "esource:" name) refl

parsed_only :
    (key : String) (kind : Kind) (name : String)
    → Names key kind name
    → route_from_scope_key key ≡ (kind, name)
unfolding route_from_scope_key
parsed_only key _ name (as_tool _ e) = rw ((strip_prefix_iff "tool:" key name).1 e) refl
parsed_only key _ name (as_prompt _ e) =
    rw
      (
        ap (strip_prefix "tool:") e ∙ prompt_is_no_tool name,
        (strip_prefix_iff "prompt:" key name).1 e,
      )
      refl
parsed_only key _ name (as_resource _ e) =
    rw
      (
        ap (strip_prefix "tool:") e ∙ resource_is_no_tool name,
        ap (strip_prefix "prompt:") e ∙ resource_is_no_prompt name,
        (strip_prefix_iff "resource:" key name).1 e,
      )
      refl
parsed_only key _ _ (bare t q r) =
    rw (stripped "tool:" key t, stripped "prompt:" key q, stripped "resource:" key r) refl

-- The capability that a key names, as it is told apart from others.
abbrev named_by : String → String
named_by key = canonical (route_from_scope_key key)

module _ (permissions : List (String × String)) where
  validate_keys_sound :
      (named scope_keys : List String)
      → validate_keys permissions named scope_keys ≡ ok tt
      → ((key : String)
          → In key scope_keys
          → (is_registered permissions (route_from_scope_key key) ≡ true)
            × (¬ In (named_by key) named))
        × Distinct (map named_by scope_keys)
  unfolding validate_keys
  validate_keys_sound named [] h = (λ key i. absurd i, tt)
  validate_keys_sound named (k ∷ ks) h =
      let (fresh, rest) = refuse_if-eq-ok _ _ _ h in
      let (known, rest) = refuse_if-eq-ok _ _ _ rest in
      let (later, apart) = validate_keys_sound (insert named (named_by k)) ks rest in
      (
        λ key i. elim i [
          | inl same ↦
              subst
                (λ x.
                  (is_registered permissions (route_from_scope_key x) ≡ true)
                  × (¬ In (named_by x) named))
                same (kept _ known, contains-eq-false named (named_by k) fresh)
          | inr j ↦ (
            (later key j).0,
            λ m. (later key j).1 (insert_old named (named_by k) (named_by key) m),
          )
        ],
        (λ i. repeated later (In-map named_by (named_by k) ks i), apart),
      )
    where
      kept : (b : Bool) → not b ≡ false → b ≡ true
      kept true e = refl
      kept false e = cc

      repeated :
          ((key : String)
            → In key ks
            → (is_registered permissions (route_from_scope_key key) ≡ true)
              × (¬ In (named_by key) (insert named (named_by k))))
          → (a : String) × In a ks × (named_by a ≡ named_by k)
          → ⊥
      repeated later (a, i, same) =
          (later a i).1 (
            subst (λ x. In x (insert named (named_by k))) (sym same)
              (insert_new named (named_by k)))

  in_keys :
      (label : String) → is_some (lookup permissions label) ≡ true → In label (keys permissions)
  in_keys label h = elim (Option-cases (lookup permissions label)) [
    | inl missing ↦ let t : false ≡ true = sym (ap is_some missing) ∙ h in cc t
    | inr (permission, found) ↦
        In-keys permissions label permission (lookup_sound permissions label permission found)
  ]

  registered_sound :
      (kind : Kind) (name : String)
      → is_registered permissions (kind, name) ≡ true
      → HasPrice permissions kind name
  unfolding is_registered
  registered_sound Kind.tool name h = elim (Bool-cases (is_some (lookup permissions name))) [
    | inl t ↦ inl (in_keys name t)
    | inr f ↦ inr (in_keys ("tool:" ^^ name) (rw f at h))
  ]
  registered_sound Kind.prompt name h = in_keys ("prompt:" ^^ name) h
  registered_sound Kind.resource name h = in_keys ("resource:" ^^ name) h

  apart_of_Distinct : (ks : List String) → Distinct (map named_by ks) → NameApart ks
  apart_of_Distinct [] d = tt
  apart_of_Distinct (k ∷ ks) d = (
    λ other kind name i n m.
        let same : named_by other ≡ named_by k =
          ap canonical (parsed_only other kind name m ∙ sym (parsed_only k kind name n)) in
        d.0 (subst (λ c. In c (map named_by ks)) same (map_of_In named_by other ks i)),
    apart_of_Distinct ks d.1,
  )

  -- Every key of a scope map that is accepted names a capability -- by the prefix of its kind, or a tool by
  -- its bare name -- that has a price, and no two keys name the same, however they are written.
  pub validate_scopes_sound :
      (scope_keys : List String)
      → validate_scopes permissions scope_keys ≡ ok tt
      → ((key : String)
          → In key scope_keys
          → (kind : Kind) × (name : String) × Names key kind name × HasPrice permissions kind name)
        × NameApart scope_keys
  unfolding validate_scopes
  validate_scopes_sound scope_keys h =
      let (known, apart) = validate_keys_sound [] scope_keys h in
      (
        λ key i. (_, _, parsed key, registered_sound _ _ (known key i).0),
        apart_of_Distinct scope_keys apart,
      )
