-- ===== src/Ladder/Prices.antt =====
-- The price of a resource is that of every pattern that covers its URI.
use mcp_authz.Base.{
  sym, ◌∙◌, Bool, true, false, not, String, ◌≡◌, refl, ◌↔◌, ◌≢◌, inl, inr, List, [], ◌∷◌, arith,
  none, some, In, filter, find, find-eq-some, find-eq-none, filter_sound, filter_complete,
  Option-cases, eq_iff, eq-nil, ◌==◌, Bool-cases,
}
use mcp_authz.Json.{Json}
use mcp_authz.Routing.{Route}
use mcp_authz.Ladder.{Entry, first_failing, named, permission_for_flat_map}

module _ (allowed : String → Bool) where
  -- No pattern covers the URI where there is no price.
  first_failing-eq-none :
      (covering : List Entry)
      → first_failing allowed covering ≡ none
      → (entry : Entry) → ¬ In entry covering
  unfolding first_failing
  first_failing-eq-none [] h entry i = i
  first_failing-eq-none (x ∷ xs) h entry i =
      elim (Option-cases (find (λ e. not (allowed e.permission)) (x ∷ xs))) [
        | inl lacking ↦ ground arith
        | inr (e, found) ↦ ground arith
      ]

  first_failing-allowed :
      (covering : List Entry) (permission : String)
      → first_failing allowed covering ≡ some permission
      → allowed permission ≡ true
      → (entry : Entry) → In entry covering
      → allowed entry.permission ≡ true
  unfolding first_failing
  first_failing-allowed covering permission h held entry i =
      elim (Option-cases (find (λ e. not (allowed e.permission)) covering)) [
        | inl lacking ↦
            let f = find-eq-none (λ e. not (allowed e.permission)) covering entry lacking i in
            ground arith
        | inr (e, found) ↦
            let (j, f) = find-eq-some (λ e. not (allowed e.permission)) covering e found in
            let same : e.permission ≡ permission = ground arith in ground arith
      ]

  first_failing-nil : first_failing allowed [] ≡ none
  unfolding first_failing find
  first_failing-nil = refl

  module _ (permissions : List (String × String)) (resources : List Entry) (uri : String)
      (body : Json) where
    abbrev read_of : Route
    read_of = record { body = body; method = "resources/read"; name = some uri }

    priced :
        uri ≢ ""
        → permission_for_flat_map permissions read_of resources allowed
          ≡ first_failing allowed (filter (λ entry. entry.matches uri) resources)
    unfolding permission_for_flat_map named
    priced stated = elim (Bool-cases (uri == "")) [
      | inl e ↦ absurd (stated ((eq_iff uri "").0 e))
      | inr e ↦ rw e
    ]

    -- Reading a resource by a URI that is not empty has no price exactly when no pattern covers the URI.
    pub permission_for_flat_map-eq-none_iff :
        uri ≢ ""
        → (permission_for_flat_map permissions read_of resources allowed ≡ none)
          ↔ ((entry : Entry) → In entry resources → entry.matches uri ≡ false)
    permission_for_flat_map-eq-none_iff stated = rw (priced stated) (
      λ h entry i. elim (Bool-cases (entry.matches uri)) [
        | inr f ↦ f
        | inl t ↦ absurd (first_failing-eq-none _ h entry (filter_complete _ entry resources i t))
      ],
      λ h.
          let empty : filter (λ e. e.matches uri) resources ≡ [] =
            eq-nil _ (λ e i. let (j, t) = filter_sound _ e resources i in cc (h e j, t)) in
          rw empty first_failing-nil,
    )

    -- A caller who may pay the price that is reported for reading a URI that is not empty may pay that of
    -- every pattern that covers the URI.
    pub permission_for_flat_map-covers :
        uri ≢ ""
        → (permission : String)
        → permission_for_flat_map permissions read_of resources allowed ≡ some permission
        → allowed permission ≡ true
        → (entry : Entry) → In entry resources
        → entry.matches uri ≡ true
        → allowed entry.permission ≡ true
    permission_for_flat_map-covers stated permission reported held entry i t =
        first_failing-allowed _ permission (sym (priced stated) ∙ reported) held entry
          (filter_complete _ entry resources i t)
