-- ===== src/Upstream/Headers.antt =====
-- What crosses the hop to the upstream: the service's credential and never the caller's.
use mcp_authz.Base.{
  true, not, ◌||◌, String, ◌≡◌, sym, ap, ◌⊎◌, inl, inr, List, [], ◌∷◌, some, In, In-filter,
  contains, contains_iff, lookup, Bool-cases, eq_refl, ◌==◌, ◌^^◌,
}
use mathlib.Core.Bool.{or-true}
use mcp_authz.Upstream.{dropped_on_forward, set_header, hop_fields, is_dropped, forwarded_headers}

In-set_header :
    (name value n v : String) (headers : List (String × String))
    → In (n, v) (set_header name value headers)
    → ((n ≡ name) × (v ≡ value)) ⊎ In (n, v) headers
unfolding set_header
In-set_header name value n v [] (inl e) =
    inl (sym (ap (λ (p : String × String). p.0) e), sym (ap (λ (p : String × String). p.1) e))
In-set_header name value n v [] (inr f) = absurd f
In-set_header name value n v ((m, w) ∷ rest) i = elim (Bool-cases (m == name)) [
  | inl same ↦ elim (let k : In (n, v) ((name, value) ∷ rest) = rw same at i in k) [
    | inl e ↦
        inl (sym (ap (λ (p : String × String). p.0) e), sym (ap (λ (p : String × String). p.1) e))
    | inr j ↦ inr (inr j)
  ]
  | inr other ↦
      elim (let k : In (n, v) ((m, w) ∷ set_header name value rest) = rw other at i in k) [
        | inl e ↦ inr (inl e)
        | inr j ↦ elim (In-set_header name value n v rest j) [ inl p ↦ inl p | inr k ↦ inr (inr k) ]
      ]
]

lookup-set_header :
    (name value : String) (headers : List (String × String))
    → lookup (set_header name value headers) name ≡ some value
unfolding set_header lookup
lookup-set_header name value [] = rw (eq_refl name)
lookup-set_header name value ((m, w) ∷ rest) = elim (Bool-cases (m == name)) [
  | inl same ↦ rw (same, eq_refl name)
  | inr other ↦ rw (other, other) (lookup-set_header name value rest)
]

undropped_lem :
    (lower : String → String) (headers : List (String × String)) (name : String)
    → not (is_dropped lower headers name) ≡ true
    → (¬ In name dropped_on_forward) × (¬ In name (hop_fields lower (lookup headers "connection")))
unfolding is_dropped
undropped_lem lower headers name kept = (
  λ i. dropped (
      ap (λ b. b || contains (hop_fields lower (lookup headers "connection")) name)
        ((contains_iff dropped_on_forward name).1 i)),
  λ i. dropped (
      rw ((contains_iff (hop_fields lower (lookup headers "connection")) name).1 i)
        (or-true (contains dropped_on_forward name))),
)
  where
    dropped :
        (contains dropped_on_forward name
            || contains (hop_fields lower (lookup headers "connection")) name)
          ≡ true
        → ⊥
    dropped e = let k : not true ≡ true = rw e at kept in cc k

module _ (lower : String → String) (headers : List (String × String)) (bearer : String) where
  -- The upstream sees the service's bearer token as the request's authorization, and every other
  -- header is one of the caller's that is neither dropped by name nor named by `Connection`.
  pub forwarded_headers_sound :
      (lookup (forwarded_headers lower headers bearer) "authorization" ≡ some ("Bearer " ^^ bearer))
      × ((n v : String)
          → In (n, v) (forwarded_headers lower headers bearer)
          → ((n ≡ "authorization") × (v ≡ "Bearer " ^^ bearer))
            ⊎ (In (n, v) headers
                × (¬ In (lower n) dropped_on_forward)
                × (¬ In (lower n) (hop_fields lower (lookup headers "connection")))))
  unfolding forwarded_headers
  forwarded_headers_sound = (
    lookup-set_header "authorization" ("Bearer " ^^ bearer) _,
    λ n v i. elim (In-set_header "authorization" ("Bearer " ^^ bearer) n v _ i) [
      | inl own ↦ inl own
      | inr j ↦
          let (k, kept) = (In-filter _ (n, v) headers).0 j in
          let (a, b) = undropped_lem lower headers (lower n) kept in inr (k, a, b)
    ],
  )
