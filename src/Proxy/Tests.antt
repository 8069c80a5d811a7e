-- ===== src/Proxy/Tests.antt =====
-- A tool call through the proxy, from the token to the upstream.
use mcp_authz.Base.{
  ℕ, true, false, Bool, String, ◌≡◌, refl, ◌↔◌, ◌⊎◌, inl, inr, List, [], ◌∷◌, Option, none, some,
  Result, ok, err, In,
}
use mcp_authz.Json.{Json, obj, end}
use mcp_authz.Policy.{Identity, Principal}
use mcp_authz.Policy.Tests.{ann, caller, same_case}
use mcp_authz.Policy.Validate.Tests.{team}
use mcp_authz.Routing.Tests.{call, call_route}
use mcp_authz.Ladder.Tests.{reader}
use mcp_authz.Proxy.{pass_through, authorize_message}
use mcp_authz.Proxy.Passed.{IsHeld, authorize_message_iff}
use mcp_authz.Proxy.Serve.{Auth, Proxy, admit}
use mcp_authz.Proxy.Serve.Admitted.{IsAdmitted, admit-IsAdmitted}

abbrev token : Auth
token = record { subject = "ann"; scopes = "mcp" ∷ "search" ∷ [] }

abbrev unchanged : List String → Option String
unchanged labels = none

abbrev any_arguments : String → Json → Json → Option String
any_arguments tool definition arguments = none

abbrev front : Proxy
front = record {
  lower = same_case;
  reader = reader;
  verify = λ req. ok token;
  map_identity = λ auth. ok (caller auth.subject true);
  policy = team;
  permissions = ("search", "read") ∷ [];
  resources = [];
  definitions = ("search", obj end) ∷ [];
  changed = unchanged;
  check_arguments = any_arguments;
  required_scopes = "mcp" ∷ [];
  capability_scopes = none;
  max_request_bytes = 1000;
  on_decision = true;
  emitter = some "edge";
  resource_metadata_url = "https://mcp.acme.com/.well-known";
  at = "2026-07-28T00:00:00Z";
}

call-admitted : admit front call ≡ ok (ann, call_route)
unfolding admit mcp_authz.Routing.is_post mcp_authz.Proxy.Serve.authorize
    mcp_authz.Policy.Decide.decide mcp_authz.Policy.Matching.holds_if_set
    mcp_authz.Policy.Matching.equals_fold mcp_authz.Base.all mcp_authz.Policy.Matching.domain_of
    mcp_authz.Proxy.Serve.after mcp_authz.Proxy.Serve.gate mcp_authz.Ladder.Gate.run_scoped_gate
    mcp_authz.Ladder.Gate.classified mcp_authz.Ladder.Gate.is_classified
    mcp_authz.Proxy.Serve.gate_options mcp_authz.Ladder.preflight_scoped_request
    mcp_authz.Ladder.read_capped mcp_authz.Upstream.read_capped_body mcp_authz.Base.Chars.codes
    mcp_authz.Ladder.parse_body mcp_authz.Base.Chars.text_of? mcp_authz.StrictJson.has_duplicate_key
    mcp_authz.Ladder.settle_route mcp_authz.Routing.classify_scoped_request
    mcp_authz.Routing.check_outcome mcp_authz.Routing.check_method mcp_authz.Routing.name_source
    mcp_authz.Routing.check_name mcp_authz.Routing.check_decoded
    mcp_authz.Scopes.decode_mcp_name_header mcp_authz.Routing.name_at
    mcp_authz.Ladder.Gate.require_headers mcp_authz.Ladder.Gate.require_permission
    mcp_authz.Ladder.Gate.route_permission mcp_authz.Ladder.permission_for_flat_map
    mcp_authz.Ladder.named mcp_authz.Policy.can mcp_authz.Ladder.Gate.require_scopes
    mcp_authz.Ladder.Gate.scopes_asked mcp_authz.Proxy.Serve.require_modern
    mcp_authz.Proxy.Serve.price authorize_message mcp_authz.Proxy.price_reached
    mcp_authz.Proxy.reach mcp_authz.Catalogue.is_invocation_method mcp_authz.Proxy.price_targets
    mcp_authz.Proxy.price_target mcp_authz.Proxy.price_named mcp_authz.Proxy.wrong_arguments
call-admitted = refl

admit-IsAdmitted_example : IsAdmitted front call ann call_route
admit-IsAdmitted_example = admit-IsAdmitted front call ann call_route call-admitted

authorize_message_iff_example :
    (authorize_message ann front.permissions [] front.definitions unchanged any_arguments true none
        "" call_route
      ≡ ok tt)
    ↔ (In "tools/call" pass_through
        ⊎ IsHeld ann front.permissions [] front.definitions unchanged any_arguments call_route)
authorize_message_iff_example =
    authorize_message_iff ann front.permissions [] front.definitions unchanged any_arguments true
      none "" call_route
