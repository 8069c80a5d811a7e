-- ===== src/Handler/Setup.antt =====
-- handler.ts: the checks that `createMcpFetch` makes before it serves, and the scopes that it advertises.
use Prim.Native.Char.{code}
use mcp_authz.Base.{
  ℕ, Bool, true, not, ◌&&◌, ◌||◌, String, List, [], ◌∷◌, ◌++◌, Option, none, some, Result, ok, err,
  ◌>>◌, refuse_if, nat_eq, leb, is_some, is_empty, or_else, or_option, any, find, keys, lookup,
  contains, insert, dedup, flat_map, ◌==◌,
}
use mcp_authz.Policy.Reconcile.{reconcile}
use mcp_authz.Scopes.{ScopeMap, ScopeValue, one, many, other}
use mcp_authz.Ladder.{Kind}
use mcp_authz.Proxy.Setup.{route_from_scope_key, canonical}
use mcp_authz.Built.{Factory, permission_for_route}

pub data SetupError : Type 0 where
  two_scope_maps two_scope_sources no_baseline : SetupError
  invalid_required invalid_supported : (scope : String) → SetupError
  empty_scopes invalid_scopes broken_scopes : (key : String) → SetupError
  scoped_twice : Kind → (name : String) → SetupError
  unregistered_scope : (key : String) → SetupError
  two_authorizers no_authorizer : SetupError
  unreachable : (report : String) → SetupError

-- The options that the checks read, as far as they do.
pub record SetupOptions : Type 0 where
  pub required_scopes : List String
  pub supported_scopes : Option (List String)
  pub tool_scopes : Option ScopeMap
  pub capability_scopes : Option ScopeMap
  pub scopes_for_request : Bool
  pub roles : Option (List (String × List String))
  pub authorize : Bool
  pub resolve : Bool
  pub permissions : Option (List (String × String))
  pub factory : Option Factory

abbrev is_token_char : ℕ → Bool
is_token_char c = nat_eq c 0x21 || ((leb 0x23 c && leb c 0x5B) || (leb 0x5D c && leb c 0x7E))

unfoldable pub all_token_chars : String → Bool
all_token_chars String.[] = true
all_token_chars (String.◌∷◌ c s) = is_token_char (code c) && all_token_chars s

-- `OAUTH_SCOPE_TOKEN.test`
unfoldable pub is_scope_token : String → Bool
is_scope_token scope = not (scope == "") && all_token_chars scope

abbrev refuse_found : Option String → (String → SetupError) → Result SetupError (Unit {0})
refuse_found none error = ok tt
refuse_found (some scope) error = err (error scope)

abbrev is_invalid : String → Bool
is_invalid scope = not (is_scope_token scope)

-- The scopes at one key of the map.
unfoldable pub check_value : String → ScopeValue → Result SetupError (Unit {0})
check_value key (one scope) = refuse_if (is_invalid scope) (invalid_scopes key)
check_value key (many []) = err (empty_scopes key)
check_value key (many (s ∷ ss)) = refuse_if (any is_invalid (s ∷ ss)) (invalid_scopes key)
check_value key other = err (broken_scopes key)

unfoldable pub check_values : ScopeMap → Result SetupError (Unit {0})
check_values [] = ok tt
check_values ((key, value) ∷ rest) = check_value key value >> check_values rest

-- `named`
unfoldable pub check_names : List String → List String → Result SetupError (Unit {0})
check_names named [] = ok tt
check_names named (key ∷ rest) =
    let route = route_from_scope_key key in
    refuse_if (contains named (canonical route)) (scoped_twice route.0 route.1)
    >> check_names (insert named (canonical route)) rest

unfoldable pub is_registered : Factory → Kind × String → Bool
is_registered factory (kind, name) = is_some (
    or_option (permission_for_route factory kind name)
      (lookup factory.route_permissions (canonical (kind, name))))

unfoldable pub check_registered : Factory → List String → Result SetupError (Unit {0})
check_registered factory [] = ok tt
check_registered factory (key ∷ rest) =
    refuse_if (not (is_registered factory (route_from_scope_key key))) (unregistered_scope key)
    >> check_registered factory rest

abbrev check_factory : Option Factory → List String → Result SetupError (Unit {0})
check_factory none names = ok tt
check_factory (some factory) names = check_registered factory names

-- `capabilityScopes ?? toolScopes`
abbrev pub scope_map_of : SetupOptions → Option ScopeMap
scope_map_of o = or_option o.capability_scopes o.tool_scopes

abbrev pub entries_of : Option ScopeMap → ScopeMap
entries_of scope_map = or_else scope_map []

abbrev pub scopes_of : String × ScopeValue → List String
scopes_of (key, one scope) = scope ∷ []
scopes_of (key, many scopes) = scopes
scopes_of (key, other) = []

-- `advertisedScopes`
unfoldable pub advertised_scopes : SetupOptions → List String
advertised_scopes o = dedup (
    o.required_scopes
    ++ (or_else o.supported_scopes [] ++ flat_map scopes_of (entries_of (scope_map_of o))))

abbrev permissions_of : Option Factory → Option (List (String × String))
permissions_of none = none
permissions_of (some factory) = some factory.permissions

-- `options.permissions ?? createServer.permissions`
abbrev pub required_of : SetupOptions → Option (List (String × String))
required_of o = or_option o.permissions (permissions_of o.factory)

abbrev check_drift :
    Option (List (String × List String))
    → Option (List (String × String))
    → Result SetupError (Unit {0})
check_drift none required = ok tt
check_drift (some roles) none = ok tt
check_drift (some roles) (some required) = refuse_found (reconcile roles required).error unreachable

-- The checks of `createMcpFetch`, in their order.
abbrev pub checks : SetupOptions → List (Result SetupError (Unit {0}))
checks o =
    refuse_if (is_some o.tool_scopes && is_some o.capability_scopes) two_scope_maps
    ∷ refuse_found (find is_invalid o.required_scopes) invalid_required
    ∷ refuse_found (find is_invalid (or_else o.supported_scopes [])) invalid_supported
    ∷ refuse_if (is_some (scope_map_of o) && o.scopes_for_request) two_scope_sources
    ∷ refuse_if (is_some (scope_map_of o) && is_empty o.required_scopes) no_baseline
    ∷ check_values (entries_of (scope_map_of o))
    ∷ check_names [] (keys (entries_of (scope_map_of o)))
    ∷ check_factory o.factory (keys (entries_of (scope_map_of o)))
    ∷ refuse_if (is_some o.roles && o.authorize) two_authorizers
    ∷ refuse_if (not (is_some o.roles) && (not o.authorize && not o.resolve)) no_authorizer
    ∷ check_drift o.roles (required_of o)
    ∷ []

-- One check after the other, to the first that fails.
abbrev pub check_all : List (Result SetupError (Unit {0})) → Result SetupError (Unit {0})
check_all [] = ok tt
check_all (check ∷ rest) = check >> check_all rest

unfoldable pub check_options : SetupOptions → Result SetupError (Unit {0})
check_options o = check_all (checks o)
