-- ===== src/Handler/Advertised.antt =====
-- Which scopes a caller may be asked for, and that the metadata names them.
use mcp_authz.Base.{
  false, ◌&&◌, ◌||◌, String, ◌≡◌, refl, sym, ap, subst, ◌∙◌, ◌⊎◌, inl, inr, List, [], ◌∷◌, ◌++◌,
  Option, none, some, Result, ok, >>_iff, refuse_if_iff, In, In-append, In-append_left,
  In-append_right, In-dedup, In-flat_map, flat_map_of_In, Bool-cases, Option-cases, lookup,
  lookup_sound, is_some, is_empty, or_else, head?, dedup, ◌==◌, if◌then◌else◌,
}
use mcp_authz.Scopes.{
  ScopeMap, ScopeValue, one, many, other, requirement, configured, configured_at, scope_key,
  scopes_for_capability,
}
use mcp_authz.Routing.{Request, Route}
use mcp_authz.Ladder.{Preflight}
use mcp_authz.Ladder.Gate.{scopes_asked, scopes_by}
use mcp_authz.Policy.{Principal}
use mcp_authz.Proxy.Serve.{Auth}
use mcp_authz.Built.{Match}
use mcp_authz.Handler.{Site, gate_options, resolve_capability_scopes, resource_routes, scopes_over}
use mcp_authz.Handler.Setup.{
  SetupError, no_baseline, SetupOptions, checks, check_all, check_options, scope_map_of, entries_of,
  scopes_of, advertised_scopes,
}

-- A scope stands at some key of the map.
abbrev IsMapped : ScopeMap → String → Type 0
IsMapped scope_map scope =
    (entry : String × ScopeValue) × In entry scope_map × In scope (scopes_of entry)

requirement-IsMapped :
    (scope_map : ScopeMap) (key scope : String) (value : ScopeValue) (scopes : List String)
    → In (key, value) scope_map
    → requirement (some value) ≡ some scopes
    → In scope scopes
    → IsMapped scope_map scope
requirement-IsMapped scope_map key scope (one s) scopes i e j =
    let same : scopes ≡ (s ∷ []) = cc in ((key, one s), i, subst (In scope) same j)
requirement-IsMapped scope_map key scope (many ss) scopes i e j =
    let same : scopes ≡ ss = cc in ((key, many ss), i, subst (In scope) same j)
requirement-IsMapped scope_map key scope other scopes i e j = cc

configured-IsMapped :
    (scope_map : ScopeMap) (key scope : String) (scopes : List String)
    → configured scope_map key ≡ some scopes
    → In scope scopes
    → IsMapped scope_map scope
unfolding configured
configured-IsMapped scope_map key scope scopes e j = elim (Option-cases (lookup scope_map key)) [
  | inl missing ↦ cc (rw missing at e)
  | inr (value, found) ↦
      requirement-IsMapped scope_map key scope value scopes (lookup_sound scope_map key value found)
        (rw found at e) j
]

-- What `or_else` takes of a list of scopes.
configured_at-cases :
    (scope_map : ScopeMap) (key : Option String) (baseline scope : String)
    → In scope (or_else (configured_at scope_map key) (baseline ∷ []))
    → (baseline ≡ scope) ⊎ IsMapped scope_map scope
configured_at-cases scope_map none baseline scope (inl e) = inl e
configured_at-cases scope_map none baseline scope (inr never) = absurd never
configured_at-cases scope_map (some key) baseline scope i =
    elim (Option-cases (configured scope_map key)) [
      | inl missing ↦ elim (rw missing at i) [ inl e ↦ inl e | inr never ↦ absurd never ]
      | inr (scopes, found) ↦
          inr (configured-IsMapped scope_map key scope scopes found (rw found at i))
    ]

scopes_for_capability-cases :
    (method name : Option String) (scope_map : ScopeMap) (baseline scope : String)
    → In scope (scopes_for_capability method name scope_map baseline)
    → (baseline ≡ scope) ⊎ IsMapped scope_map scope
unfolding scopes_for_capability
scopes_for_capability-cases method none scope_map baseline scope (inl e) = inl e
scopes_for_capability-cases method none scope_map baseline scope (inr never) = absurd never
scopes_for_capability-cases method (some name) scope_map baseline scope i =
    elim (Bool-cases (name == "")) [
      | inl blank ↦ elim (rw blank at i) [ inl e ↦ inl e | inr never ↦ absurd never ]
      | inr named ↦
          configured_at-cases scope_map (scope_key scope_map method name) baseline scope
            (rw named at i)
    ]

passed :
    (check : Result SetupError (Unit {0})) (all : List (Result SetupError (Unit {0})))
    → check_all all ≡ ok tt
    → In check all
    → check ≡ ok tt
passed check [] e i = absurd i
passed check (c ∷ rest) e (inl same) = sym same ∙ ((>>_iff c (check_all rest) tt).0 e).0
passed check (c ∷ rest) e (inr i) = passed check rest ((>>_iff c (check_all rest) tt).0 e).1 i

-- A map comes with a baseline.
has-baseline :
    (o : SetupOptions) (scope_map : ScopeMap)
    → check_options o ≡ ok tt
    → scope_map_of o ≡ some scope_map
    → is_empty o.required_scopes ≡ false
unfolding check_options
has-baseline o scope_map checked found =
    let empty : (is_some (scope_map_of o) && is_empty o.required_scopes) ≡ false =
      (refuse_if_iff _ no_baseline).0
        (passed _ (checks o) checked (inr (inr (inr (inr (inl refl)))))) in
    rw found at empty

module _ {Context : Type 0} (x : Site Context) where
  abbrev baseline : String
  baseline = or_else (head? x.required_scopes) "mcp"

  abbrev fallback : Route → ScopeMap → List String
  fallback route scope_map = scopes_for_capability (some route.method) route.name scope_map baseline

  scopes_over-cases :
      (route : Route) (matches : List Match) (scope_map : ScopeMap) (scope : String)
      → In scope (or_else (scopes_over x route matches (some scope_map)) (fallback route scope_map))
      → (baseline ≡ scope) ⊎ IsMapped scope_map scope
  scopes_over-cases route [] scope_map scope i =
      scopes_for_capability-cases (some route.method) route.name scope_map baseline scope i
  scopes_over-cases route (m ∷ more) scope_map scope i =
      let over = λ (match : Match).
        scopes_for_capability (some route.method) (some match.route_name) scope_map baseline in
      let (match, at, j) = In-flat_map over scope (m ∷ more) ((In-dedup _ scope).0 i) in
      scopes_for_capability-cases (some route.method) (some match.route_name) scope_map baseline
        scope j

  -- Where a map chooses the scopes, those of a route are required of all, or stand in the map.
  route_scopes-cases :
      (route : Route) (scope_map : ScopeMap) (scope : String)
      → x.scope_map ≡ some scope_map
      → In scope (
          dedup (
            x.required_scopes
            ++ or_else (resolve_capability_scopes x route) (fallback route scope_map)))
      → In scope x.required_scopes ⊎ ((baseline ≡ scope) ⊎ IsMapped scope_map scope)
  unfolding resolve_capability_scopes resource_routes
  route_scopes-cases route scope_map scope e i =
      elim (In-append scope x.required_scopes _ ((In-dedup _ scope).0 i)) [
        | inl j ↦ inl j
        | inr j ↦
            inr (scopes_over-cases route (resource_routes x route) scope_map scope (rw e at j))
      ]

  module _ (o : SetupOptions) (same_required : x.required_scopes ≡ o.required_scopes) where
    required-advertised :
        (scope : String) → In scope x.required_scopes → In scope (advertised_scopes o)
    unfolding advertised_scopes
    required-advertised scope i =
        (In-dedup _ scope).1
          (In-append_left scope o.required_scopes _ (subst (In scope) same_required i))

    mapped-advertised :
        (scope : String)
        → IsMapped (entries_of (scope_map_of o)) scope
        → In scope (advertised_scopes o)
    unfolding advertised_scopes
    mapped-advertised scope (entry, at, i) =
        let mapped = flat_map_of_In scopes_of scope entry (entries_of (scope_map_of o)) at i in
        (In-dedup _ scope).1 (
          In-append_right scope o.required_scopes _
            (In-append_right scope (or_else o.supported_scopes []) _ mapped))

    baseline-In : is_empty o.required_scopes ≡ false → In baseline x.required_scopes
    baseline-In full = first x.required_scopes (ap is_empty same_required ∙ full)
      where
        first :
            (scopes : List String)
            → is_empty scopes ≡ false
            → In (or_else (head? scopes) "mcp") scopes
        first [] h = cc
        first (s ∷ ss) h = inl refl

  -- After the checks at boot, every scope that the gate asks a token for is one that the metadata of the resource
  -- advertises, whatever the request and whoever sends it, where no function of the host chooses the scopes.
  pub asked-advertised :
      (o : SetupOptions)
      → check_options o ≡ ok tt
      → x.required_scopes ≡ o.required_scopes
      → x.scope_map ≡ scope_map_of o
      → x.scopes_for_request ≡ none
      → (request : Request) (auth : Auth) (principal : Option Principal)
        (preflight : Option Preflight) (scope : String)
      → In scope (scopes_asked (gate_options x request auth principal) preflight)
      → In scope (advertised_scopes o)
  unfolding scopes_asked gate_options
  asked-advertised o checked same_required same_map no_host request auth principal none scope i =
      required-advertised o same_required scope i
  asked-advertised o checked same_required same_map no_host request auth principal (some p) scope
        i =
      elim (Option-cases (scope_map_of o)) [
        | inl without ↦
            required-advertised o same_required scope (rw (same_map, without, no_host) at i)
        | inr (scope_map, found) ↦
            let has : x.scope_map ≡ some scope_map = same_map ∙ found in
            let options = gate_options x request auth principal in
            let asked =
              subst
                (λ (m : Option ScopeMap). In scope (
                  if is_some m || is_some x.scopes_for_request
                  then scopes_by options p.route m
                  else x.required_scopes))
                has i in
            elim (route_scopes-cases p.route scope_map scope has asked) [
              | inl j ↦ required-advertised o same_required scope j
              | inr (inl e) ↦ required-advertised o same_required scope (
                  subst (λ (s : String). In s x.required_scopes) e
                    (baseline-In o same_required (has-baseline o scope_map checked found)))
              | inr (inr mapped) ↦ mapped-advertised o same_required scope (rw found mapped)
            ]
      ]
