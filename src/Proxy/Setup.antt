-- ===== src/Proxy/Setup.antt =====
-- proxy.ts: the checks that `createMcpProxy` makes before it serves, and the index of resources.
-- `template_matches` stands for `match` of the SDK's `UriTemplate`.
pub mod Tests
pub mod Scoped
pub mod Located
pub mod Indexed
use mcp_authz.Base.{
  ℕ, Bool, true, false, not, ◌&&◌, ◌||◌, String, List, [], ◌∷◌, ◌++◌, Option, none, some, Result,
  ok, err, ◌>>=◌, ◌>>◌, refuse_if, find, is_empty, is_some, contains, insert, keys, lookup,
  strip_prefix, has_char, if◌then◌else◌, ◌==◌, ◌^^◌,
}
use mcp_authz.Ladder.{Kind, tool, prompt, resource, capability_label}
use mcp_authz.Proxy.{Resource}

-- What the checks throw.
pub data SetupError : Type 0 where
  empty_label : SetupError
  empty_permission : (label : String) → SetupError
  scoped_twice : Kind → (name : String) → SetupError
  unregistered_scope : (key : String) → SetupError
  unpriced_resources : (labels : List String) → SetupError
  unregistered_uri : (label : String) → SetupError

-- `validatePermissions`
pub validate_permissions : List (String × String) → Result SetupError (Unit {0})
validate_permissions [] = ok tt
validate_permissions ((label, permission) ∷ rest) = do
  refuse_if (label == "") empty_label
  refuse_if (permission == "") (empty_permission label)
  validate_permissions rest

abbrev or_tool : String → Option String → Kind × String
or_tool key none = (tool, key)
or_tool key (some name) = (resource, name)

abbrev or_resource : String → Option String → Kind × String
or_resource key none = or_tool key (strip_prefix "resource:" key)
or_resource key (some name) = (prompt, name)

abbrev or_prompt : String → Option String → Kind × String
or_prompt key none = or_resource key (strip_prefix "prompt:" key)
or_prompt key (some name) = (tool, name)

-- `routeFromScopeKey`
unfoldable pub route_from_scope_key : String → Kind × String
route_from_scope_key key = or_prompt key (strip_prefix "tool:" key)

-- `${kind}:${name}`
unfoldable pub canonical : Kind × String → String
canonical (Kind.tool, name) = "tool:" ^^ name
canonical (Kind.prompt, name) = "prompt:" ^^ name
canonical (Kind.resource, name) = "resource:" ^^ name

-- Whether a scope's key names a capability that has a price; a tool may be priced under either label.
pub is_registered : List (String × String) → Kind × String → Bool
is_registered permissions (Kind.tool, name) =
    is_some (lookup permissions name) || is_some (lookup permissions ("tool:" ^^ name))
is_registered permissions (Kind.prompt, name) = is_some (lookup permissions ("prompt:" ^^ name))
is_registered permissions (Kind.resource, name) = is_some (lookup permissions ("resource:" ^^ name))

-- The loop of `validateScopes`, with the capabilities named so far.
pub validate_keys :
    List (String × String) → List String → List String → Result SetupError (Unit {0})
validate_keys permissions named [] = ok tt
validate_keys permissions named (key ∷ rest) = do
  let route = route_from_scope_key key
  refuse_if (contains named (canonical route)) (scoped_twice route.0 route.1)
  refuse_if (not (is_registered permissions route)) (unregistered_scope key)
  validate_keys permissions (insert named (canonical route)) rest

-- `validateScopes`, over the keys of the map.
pub validate_scopes : List (String × String) → List String → Result SetupError (Unit {0})
validate_scopes permissions scope_keys = validate_keys permissions [] scope_keys

module _ (template_matches : String → String → Bool) where
  -- The entry of a label at its URI or template.
  pub resource_at : String → String → String → Resource
  resource_at label permission uri = record {
    label = label;
    permission = permission;
    pattern = uri;
    matches = if has_char b'{' uri then template_matches uri else (λ target. target == uri);
  }

  pub record Sorted : Type 0 where
    pub exact : List Resource
    pub templated : List Resource
    pub unpriced : List String

  abbrev pub sorted_at : String → String → Option String → Sorted → Sorted
  sorted_at label permission none rest = record {
    exact = rest.exact;
    templated = rest.templated;
    unpriced = label ∷ rest.unpriced;
  }
  sorted_at label permission (some uri) rest =
      if has_char b'{' uri
      then record {
        exact = rest.exact;
        templated = resource_at label permission uri ∷ rest.templated;
        unpriced = rest.unpriced;
      }
      else record {
        exact = resource_at label permission uri ∷ rest.exact;
        templated = rest.templated;
        unpriced = rest.unpriced;
      }

  -- The loop over the priced labels, of which only those of resources matter.
  pub sort_resources : List (String × String) → List (String × String) → Sorted
  sort_resources uris [] = record { exact = []; templated = []; unpriced = [] }
  sort_resources uris ((label, permission) ∷ rest) =
      let others = sort_resources uris rest in
      if is_some (strip_prefix "resource:" label)
      then sorted_at label permission (lookup uris label) others
      else others

  abbrev pub refuse_found : Option String → Result SetupError (Unit {0})
  refuse_found none = ok tt
  refuse_found (some label) = err (unregistered_uri label)

  -- `buildResourceIndex`: exact URIs before templates.
  pub build_resource_index :
      List (String × String) → List (String × String) → Result SetupError (List Resource)
  build_resource_index permissions uris = do
    let sorted = sort_resources uris permissions
    refuse_if (not (is_empty sorted.unpriced)) (unpriced_resources sorted.unpriced)
    refuse_found (find (λ label. not (is_some (lookup permissions label))) (keys uris))
    ok (sorted.exact ++ sorted.templated)
