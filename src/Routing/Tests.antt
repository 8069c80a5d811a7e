-- ===== src/Routing/Tests.antt =====
-- One call of a tool, with the headers that go with it.
use mcp_authz.Base.{true, String, ◌≡◌, refl, [], ◌∷◌, some}
use mcp_authz.Base.Chars.{codes}
use mcp_authz.Json.{Json, str, num, obj, end, field}
use mcp_authz.Routing.{
  Request, Inbound, Outcome, modern, Route, ScopedRoute, trusted, is_post, classify_scoped_request,
}
use mcp_authz.Routing.Agreement.{Agrees, outcome, classify_scoped_request-trusted}

abbrev pub call_params : Json
call_params = obj (field "name" (str "search") end)

abbrev pub call_body : Json
call_body =
    obj (field "id" (num "1") (field "method" (str "tools/call") (field "params" call_params end)))

abbrev pub call_text : String
call_text = "{\"id\":1,\"method\":\"tools/call\",\"params\":{\"name\":\"search\"}}"

abbrev pub call : Request
call = record {
  method = "POST";
  protocol_version = some "2026-07-28";
  mcp_method = some "tools/call";
  mcp_name = some "search";
  content_type = some "application/json";
  content_length = 58;
  body = codes call_text ∷ [];
}

-- A classification that calls every request modern.
abbrev pub sdk : Inbound → Outcome
sdk message = modern true "tools/call" call_params

abbrev pub call_route : Route
call_route = record { body = call_body; method = "tools/call"; name = some "search" }

pub call-trusted : classify_scoped_request sdk call call_body ≡ trusted call_route
unfolding classify_scoped_request is_post mcp_authz.Routing.check_outcome
    mcp_authz.Routing.check_method mcp_authz.Routing.name_source mcp_authz.Routing.check_name
    mcp_authz.Routing.check_decoded mcp_authz.Scopes.decode_mcp_name_header
    mcp_authz.Routing.name_at
call-trusted = refl

classify_scoped_request-trusted_example :
    (is_post call.method ≡ true) × Agrees call call_body call_route (outcome sdk call call_body)
classify_scoped_request-trusted_example =
    classify_scoped_request-trusted sdk call call_body call_route call-trusted
