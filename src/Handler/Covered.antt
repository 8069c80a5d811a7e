-- ===== src/Handler/Covered.antt =====
-- A read is priced by every registration that covers its URI.
use mcp_authz.Base.{
  Bool, true, false, not, String, ◌≡◌, ◌≢◌, refl, sym, ap, subst, ◌∙◌, inl, inr, List, [], ◌∷◌,
  Option, none, some, In, In-filter, In-map, map_of_In, find, find-eq-some, find-eq-none,
  Option-cases, ◌==◌, filter, map, differs,
}
use mcp_authz.Policy.{Principal, can}
use mcp_authz.Routing.{Route}
use mcp_authz.Ladder.{resource, Preflight}
use mcp_authz.Ladder.Gate.{route_permission}
use mcp_authz.Ladder.Gate.Admits.{Permitted}
use mcp_authz.Built.{Definition, Factory, Match, match_of, reaches, routes_for}
use mcp_authz.Handler.{Site, resource_routes, price_over, fails, resolve_permission}

-- Every capability costs something.
abbrev pub IsPriced : Option Factory → Type 0
IsPriced none = Unit
IsPriced (some factory) = (d : Definition) → In d factory.definitions → d.permission ≢ ""

-- A resource that is read is covered by no registration that the caller may not read.
abbrev pub Covers : Option Factory → Option Principal → Option Preflight → Type 0
Covers none principal preflight = Unit
Covers (some factory) none preflight = Unit
Covers (some factory) (some p) none = Unit
Covers (some factory) (some p) (some preflight) =
    (uri : String)
    → preflight.route.method ≡ "resources/read"
    → preflight.route.name ≡ some uri
    → uri ≢ ""
    → (d : Definition) → In d factory.definitions
    → reaches resource uri d ≡ true
    → can p d.permission ≡ true

pub not-eq_true : (b : Bool) → not b ≡ false → b ≡ true
not-eq_true true e = refl
not-eq_true false e = sym e

module _ {Context : Type 0} (x : Site Context) where
  -- The price of what a read reaches is that of every registration it reaches.
  price_over-covers :
      (p : Principal) (route : Route) (matches : List Match)
      → ((m : Match) → In m matches → m.permission ≢ "")
      → Permitted (some p) (price_over x (some p) route matches)
      → (m : Match) → In m matches
      → can p m.permission ≡ true
  price_over-covers p route [] priced may m i = absurd i
  price_over-covers p route (first ∷ more) priced may m i =
      elim (Option-cases (find (fails x (some p)) (first ∷ more))) [
        | inl all ↦ not-eq_true _ (find-eq-none (fails x (some p)) (first ∷ more) m all i)
        | inr (lacking, found) ↦
            let (j, cannot) = find-eq-some (fails x (some p)) (first ∷ more) lacking found in
            let held = rw found at may in absurd (apart _ (held (priced lacking j)) cannot)
      ]
    where
      apart : (b : Bool) → b ≡ true → not b ≡ true → ⊥
      apart b e f = cc (sym f ∙ ap not e)

  pub Covers-of_Permitted :
      (factory : Option Factory) (principal : Option Principal) (preflight : Option Preflight)
      → x.factory ≡ factory
      → IsPriced factory
      → Permitted principal (route_permission (resolve_permission x principal) preflight)
      → Covers factory principal preflight
  unfolding route_permission resolve_permission resource_routes routes_for
  Covers-of_Permitted none principal preflight e priced may = tt
  Covers-of_Permitted (some factory) none preflight e priced may = tt
  Covers-of_Permitted (some factory) (some p) none e priced may = tt
  Covers-of_Permitted (some factory) (some p) (some preflight) e priced may =
      λ uri read name stated d i reached.
        let reaching = filter (reaches resource uri) factory.definitions in
        let blank : (uri == "") ≡ false = differs uri "" stated in
        let routes : resource_routes x preflight.route ≡ map match_of reaching =
          rw (e, name, read, blank) in
        price_over-covers p preflight.route (map match_of reaching)
          (λ m j.
            let (c, k, same) = In-map match_of m reaching j in
            rw (← same) (priced c ((In-filter _ c factory.definitions).0 k).0))
          (subst
            (λ (ms : List Match). Permitted (some p) (price_over x (some p) preflight.route ms))
            routes may)
          (match_of d)
          (map_of_In match_of d reaching ((In-filter _ d factory.definitions).1 (i, reached)))
