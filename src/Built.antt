-- ===== src/Built.antt =====
-- tools.ts: the capabilities that a server is built of, `buildServer`, and the factory that it makes.
pub mod Tests
use mcp_authz.Base.{
  Bool, true, false, not, ◌&&◌, String, List, [], ◌∷◌, Option, none, some, Result, ok, err, ◌>>=◌,
  ◌>>◌, refuse_if, is_some, is_empty, filter, any, map, head?, lookup, put, if◌then◌else◌, ◌==◌,
  ◌^^◌,
}
use mcp_authz.Policy.{Principal, can}
use mcp_authz.Ladder.{Kind, tool, prompt, resource}

-- `Definition`, less what registers it.
pub record Definition : Type 0 where
  pub label : String
  pub kind : Kind
  pub route_name : Option String
  pub route_matches : Option (String → Bool)
  pub permission : String
  pub approval : Bool

-- What `tool`, `prompt` and `resource` make of a name and its configuration; `matches` stands for `match` of the
-- SDK's `UriTemplate`.
unfoldable pub tool_definition : (name permission : String) (approval : Bool) → Definition
tool_definition name permission approval = record {
  label = name;
  kind = tool;
  route_name = some name;
  route_matches = none;
  permission = permission;
  approval = approval;
}

pub prompt_definition : (name permission : String) (approval : Bool) → Definition
prompt_definition name permission approval = record {
  label = "prompt:" ^^ name;
  kind = prompt;
  route_name = some name;
  route_matches = none;
  permission = permission;
  approval = approval;
}

unfoldable pub resource_definition :
    (String → String → Bool) → (name uri permission : String) (approval : Bool) → Definition
resource_definition matches name uri permission approval = record {
  label = "resource:" ^^ name;
  kind = resource;
  route_name = some uri;
  route_matches = some (matches uri);
  permission = permission;
  approval = approval;
}

pub data BuildError : Type 0 where
  registered_twice : (label : String) → BuildError
  no_approver : (labels : List String) → BuildError

abbrev pub kind_name : Kind → String
kind_name Kind.tool = "tool"
kind_name Kind.prompt = "prompt"
kind_name Kind.resource = "resource"

-- `${kind}:${name}`
abbrev pub route_key : Kind → String → String
route_key kind name = kind_name kind ^^ ":" ^^ name

-- `ServerFactory`, by what it is made of.
pub record Factory : Type 0 where
  pub definitions : List Definition
  pub permissions : List (String × String)
  pub route_permissions : List (String × String)

abbrev with_route : List (String × String) → Definition → Option String → List (String × String)
with_route routes d none = routes
with_route routes d (some name) = put routes (route_key d.kind name) d.permission

-- The loop over the definitions, with the maps so far.
pub register_all :
    List (String × String)
    → List (String × String)
    → List Definition
    → Result BuildError (List (String × String) × List (String × String))
register_all permissions routes [] = ok (permissions, routes)
register_all permissions routes (d ∷ rest) =
    refuse_if (is_some (lookup permissions d.label)) (registered_twice d.label)
    >> register_all (put permissions d.label d.permission) (with_route routes d d.route_name) rest

-- The labels of what asks for a person.
pub unaskable : List Definition → List String
unaskable definitions =
    map (λ (d : Definition). d.label) (filter (λ (d : Definition). d.approval) definitions)

-- `buildServer`
pub build_server : List Definition → Bool → Result BuildError Factory
build_server definitions on_approval = register_all [] [] definitions >>= λ maps.
    refuse_if (not (is_empty (unaskable definitions)) && not on_approval)
      (no_approver (unaskable definitions))
    >> ok (record { definitions = definitions; permissions = maps.0; route_permissions = maps.1 })

abbrev pub same_kind : Kind → Kind → Bool
same_kind a b = kind_name a == kind_name b

-- What one server is registered with, and which kinds it advertises.
pub record Server : Type 0 where
  pub tools : Bool
  pub prompts : Bool
  pub resources : Bool
  pub registered : List Definition

abbrev of_kind : Kind → List Definition → Bool
of_kind kind definitions = any (λ (d : Definition). same_kind d.kind kind) definitions

-- The factory: each `register` asks again whether the principal may call it.
pub server_for : Factory → Principal → Server
server_for factory p =
    let enabled = filter (λ (d : Definition). can p d.permission) factory.definitions in
    record {
      tools = of_kind tool enabled;
      prompts = of_kind prompt enabled;
      resources = of_kind resource enabled;
      registered = filter (λ (d : Definition). can p d.permission) enabled;
    }

-- A registration that a request reaches.
pub record Match : Type 0 where
  pub route_name : String
  pub permission : String

abbrev is_route : Option String → String → Bool
is_route none name = false
is_route (some route_name) name = route_name == name

abbrev pub matches_by : Option (String → Bool) → Option String → String → Bool
matches_by none route_name name = is_route route_name name
matches_by (some test) route_name name = test name

unfoldable pub reaches : Kind → String → Definition → Bool
reaches kind name d = same_kind d.kind kind && matches_by d.route_matches d.route_name name

-- `definition.routeName!`
abbrev name_or : Option String → String
name_or none = "undefined"
name_or (some name) = name

abbrev pub match_of : Definition → Match
match_of d = record { route_name = name_or d.route_name; permission = d.permission }

-- `routesFor`
unfoldable pub routes_for : Factory → Kind → String → List Match
routes_for factory kind name = map match_of (filter (reaches kind name) factory.definitions)

abbrev permission_of : Option Match → Option String
permission_of none = none
permission_of (some m) = some m.permission

-- `permissionForRoute` of the factory
unfoldable pub permission_for_route : Factory → Kind → String → Option String
permission_for_route factory kind name = permission_of (head? (routes_for factory kind name))
