-- ===== src/Built/Tests.antt =====
-- A server of one tool and two resources that cover one URI.
use mcp_authz.Base.{
  Bool, true, false, String, ◌≡◌, refl, List, [], ◌∷◌, Option, none, some, ok, err, ◌==◌, ◌||◌,
  ◌&&◌,
}
use mcp_authz.Policy.{Principal}
use mcp_authz.Ladder.{resource}
use mcp_authz.Built.{
  Definition, Factory, Server, Match, tool_definition, resource_definition, build_server,
  server_for, routes_for, registered_twice, no_approver,
}

-- A template that covers every case.
abbrev covers : String → String → Bool
covers template uri = template == uri || (template == "case://{id}" && uri == "case://C1")

abbrev pub definitions : List Definition
definitions =
    tool_definition "search" "read" false
    ∷ resource_definition covers "one" "case://C1" "read" false
    ∷ resource_definition covers "any" "case://{id}" "purge" false
    ∷ []

abbrev pub factory : Factory
factory = record {
  definitions = definitions;
  permissions = ("search", "read") ∷ ("resource:one", "read") ∷ ("resource:any", "purge") ∷ [];
  route_permissions =
      ("tool:search", "read")
      ∷ ("resource:case://C1", "read")
      ∷ ("resource:case://{id}", "purge")
      ∷ [];
}

built : build_server definitions false ≡ ok factory
unfolding build_server mcp_authz.Built.register_all mcp_authz.Base.lookup mcp_authz.Base.put
    tool_definition resource_definition mcp_authz.Built.unaskable mcp_authz.Base.filter
built = refl

built_twice :
    build_server (tool_definition "search" "read" false ∷ definitions) false
    ≡ err (registered_twice "search")
unfolding build_server mcp_authz.Built.register_all mcp_authz.Base.lookup mcp_authz.Base.put
    tool_definition
built_twice = refl

built_unasked :
    build_server (tool_definition "refund" "write" true ∷ definitions) false
    ≡ err (no_approver ("refund" ∷ []))
unfolding build_server mcp_authz.Built.register_all mcp_authz.Base.lookup mcp_authz.Base.put
    tool_definition resource_definition mcp_authz.Built.unaskable mcp_authz.Base.filter
built_unasked = refl

both_reached : routes_for factory resource "case://C1" ≡ (
    record { route_name = "case://C1"; permission = "read" }
    ∷ record { route_name = "case://{id}"; permission = "purge" }
    ∷ [])
unfolding routes_for mcp_authz.Base.filter mcp_authz.Built.reaches tool_definition
    resource_definition
both_reached = refl

abbrev clerk : Principal
clerk = record {
  issuer = "https://idp.acme.com";
  sub = "clerk";
  email = none;
  domain = none;
  roles = "clerk" ∷ [];
  permissions = "read" ∷ [];
}

served_to_clerk : (server_for factory clerk).registered ≡ (
    tool_definition "search" "read" false
    ∷ resource_definition covers "one" "case://C1" "read" false
    ∷ [])
unfolding server_for mcp_authz.Base.filter mcp_authz.Policy.can resource_definition tool_definition
served_to_clerk = refl
