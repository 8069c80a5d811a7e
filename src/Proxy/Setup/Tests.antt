-- ===== src/Proxy/Setup/Tests.antt =====
-- Two scopes and one priced resource.
use mcp_authz.Base.{
  Bool, true, false, String, ◌≡◌, refl, ◌↔◌, List, [], ◌∷◌, Option, none, some, Result, ok, err, In,
  Distinct, map, ◌==◌, ◌^^◌, lookup, keys,
}
use mcp_authz.Ladder.{Kind}
use mcp_authz.Proxy.{Resource}
use mcp_authz.Proxy.Setup.{
  is_registered, route_from_scope_key, validate_scopes, resource_at, build_resource_index,
}
use mcp_authz.Proxy.Setup.Scoped.{Names, HasPrice, NameApart, validate_scopes_sound}
use mcp_authz.Proxy.Setup.Indexed.{IsPriced, build_resource_index_iff}

abbrev prices : List (String × String)
prices = ("search", "read") ∷ ("resource:case", "read") ∷ []

abbrev scoped : List String
scoped = "tool:search" ∷ "resource:case" ∷ []

scopes-accepted : validate_scopes prices scoped ≡ ok tt
unfolding validate_scopes mcp_authz.Proxy.Setup.validate_keys mcp_authz.Base.contains is_registered
    route_from_scope_key mcp_authz.Base.strip_prefix mcp_authz.Base.lookup mcp_authz.Base.insert
    mcp_authz.Proxy.Setup.canonical
scopes-accepted = refl

validate_scopes_sound_example :
    ((key : String)
      → In key scoped
      → (kind : Kind) × (name : String) × Names key kind name × HasPrice prices kind name)
    × NameApart scoped
validate_scopes_sound_example = validate_scopes_sound prices scoped scopes-accepted

abbrev starts : String → String → Bool
starts template uri = false

abbrev uris : List (String × String)
uris = ("resource:case", "cases://{id}") ∷ []

abbrev index : List Resource
index = resource_at starts "resource:case" "read" "cases://{id}" ∷ []

index-built : build_resource_index starts prices uris ≡ ok index
unfolding build_resource_index mcp_authz.Proxy.Setup.sort_resources mcp_authz.Base.strip_prefix
    mcp_authz.Base.lookup mcp_authz.Base.has_char mcp_authz.Base.find
index-built = refl

build_resource_index_iff_example :
    ((r : Resource) → In r index ↔ IsPriced starts uris prices r)
    × ((name permission : String)
        → In ("resource:" ^^ name, permission) prices
        → (uri : String) × (lookup uris ("resource:" ^^ name) ≡ some uri))
    × ((label : String) → In label (keys uris) → In label (keys prices))
build_resource_index_iff_example = build_resource_index_iff starts uris prices index index-built
