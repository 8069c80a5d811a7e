-- ===== src/Handler/Tests.antt =====
-- A tool call through the handler, from the token to the context.
use mcp_authz.Base.{
  true, false, String, ◌≡◌, refl, ap, ◌↔◌, inl, inr, List, [], ◌∷◌, Option, none, some, Result, ok,
  err, In, ◌^^◌,
}
use mcp_authz.Policy.{Principal}
use mcp_authz.Policy.Tests.{ann, caller, same_case}
use mcp_authz.Policy.Validate.Tests.{team}
use mcp_authz.Routing.Tests.{call}
use mcp_authz.Ladder.Tests.{reader, read_call}
use mcp_authz.Ladder.Gate.{allow, scopes_asked}
use mcp_authz.Scopes.{one}
use mcp_authz.Json.{str, obj, field, end}
use mcp_authz.Handler.Setup.{SetupOptions, check_options, advertised_scopes, unregistered_scope}
use mcp_authz.Handler.Advertised.{asked-advertised}
use mcp_authz.Handler.Legacy.{explain_legacy_refusal, advice}
use mcp_authz.Proxy.Serve.{Auth}
use mcp_authz.Built.{Definition}
use mcp_authz.Built.Tests.{factory}
use mcp_authz.Handler.{Site, Served, by_policy, told, gate_options, serve}
use mcp_authz.Handler.Covered.{IsPriced}
use mcp_authz.Handler.Passage.{IsPassed, serve_iff}

abbrev token : Auth
token = record { subject = "ann"; scopes = "mcp" ∷ [] }

abbrev site : Site Principal
site = record {
  lower = same_case;
  reader = reader;
  is_metadata = λ request. false;
  pathname = λ request. "/mcp";
  health_path = "/health";
  resource_path = "/mcp";
  verify = λ request. ok token;
  map_identity = λ auth. ok (caller auth.subject true);
  authorizer = by_policy team;
  resolve = none;
  context_of = λ p. p;
  factory = some factory;
  required = some factory.permissions;
  required_scopes = "mcp" ∷ [];
  scope_map = none;
  scopes_for_request = none;
  max_request_bytes = 1000;
  on_decision = true;
  emitter = some "edge";
  resource_metadata_url = "https://mcp.acme.com/.well-known";
  at = "2026-07-28T00:00:00Z";
}

abbrev served : Served Principal
served = record {
  context = ann;
  preflight = some read_call;
  events = told site (some ann) allow none;
}

call-served : serve site call ≡ ok served
unfolding serve mcp_authz.Handler.authorize mcp_authz.Handler.gate_options mcp_authz.Handler.enrich
    mcp_authz.Handler.context_for mcp_authz.Handler.resolve_permission
    mcp_authz.Handler.resource_routes mcp_authz.Ladder.permission_for_route
    mcp_authz.Built.permission_for_route mcp_authz.Built.routes_for mcp_authz.Built.reaches
    mcp_authz.Routing.is_post mcp_authz.Policy.Decide.decide mcp_authz.Policy.Matching.holds_if_set
    mcp_authz.Policy.Matching.equals_fold mcp_authz.Base.all mcp_authz.Policy.Matching.domain_of
    mcp_authz.Ladder.Gate.run_scoped_gate mcp_authz.Ladder.Gate.classified
    mcp_authz.Ladder.Gate.is_classified mcp_authz.Ladder.preflight_scoped_request
    mcp_authz.Ladder.read_capped mcp_authz.Upstream.read_capped_body mcp_authz.Base.Chars.codes
    mcp_authz.Ladder.parse_body mcp_authz.Base.Chars.text_of? mcp_authz.StrictJson.has_duplicate_key
    mcp_authz.Ladder.settle_route mcp_authz.Routing.classify_scoped_request
    mcp_authz.Routing.check_outcome mcp_authz.Routing.check_method mcp_authz.Routing.name_source
    mcp_authz.Routing.check_name mcp_authz.Routing.check_decoded
    mcp_authz.Scopes.decode_mcp_name_header mcp_authz.Routing.name_at
    mcp_authz.Ladder.Gate.require_headers mcp_authz.Ladder.Gate.require_permission
    mcp_authz.Ladder.Gate.route_permission mcp_authz.Ladder.permission_for_flat_map
    mcp_authz.Ladder.named mcp_authz.Policy.can mcp_authz.Ladder.Gate.require_scopes
    mcp_authz.Ladder.Gate.scopes_asked mcp_authz.Catalogue.is_invocation_method
    mcp_authz.Ladder.kind_of mcp_authz.Built.tool_definition
call-served = refl

priced : IsPriced (some factory)
unfolding mcp_authz.Built.tool_definition mcp_authz.Built.resource_definition
priced d (inl e) free = cc (ap (λ (c : Definition). c.permission) e)
priced d (inr (inl e)) free = cc (ap (λ (c : Definition). c.permission) e)
priced d (inr (inr (inl e))) free = cc (ap (λ (c : Definition). c.permission) e)
priced d (inr (inr (inr never))) free = never

serve_iff_example : (serve site call ≡ ok served) ↔ IsPassed site call served
serve_iff_example = serve_iff site call served priced

abbrev scoped : SetupOptions
scoped = record {
  required_scopes = "mcp" ∷ [];
  supported_scopes = none;
  tool_scopes = none;
  capability_scopes = some (("tool:search", one "search") ∷ []);
  scopes_for_request = false;
  roles = none;
  authorize = true;
  resolve = false;
  permissions = none;
  factory = some factory;
}

scoped_checked : check_options scoped ≡ ok tt
unfolding check_options mcp_authz.Base.find mcp_authz.Handler.Setup.is_scope_token
    mcp_authz.Handler.Setup.all_token_chars mcp_authz.Handler.Setup.check_values
    mcp_authz.Handler.Setup.check_value mcp_authz.Handler.Setup.check_names mcp_authz.Base.contains
    mcp_authz.Handler.Setup.check_registered mcp_authz.Handler.Setup.is_registered
    mcp_authz.Built.permission_for_route mcp_authz.Built.routes_for mcp_authz.Base.filter
    mcp_authz.Built.reaches mcp_authz.Built.tool_definition
    mcp_authz.Proxy.Setup.route_from_scope_key mcp_authz.Base.strip_prefix
scoped_checked = refl

unknown_refused :
    check_options
      (record scoped { capability_scopes = some (("prompt:search", one "search") ∷ []) })
    ≡ err (unregistered_scope "prompt:search")
unfolding check_options mcp_authz.Base.find mcp_authz.Handler.Setup.is_scope_token
    mcp_authz.Handler.Setup.all_token_chars mcp_authz.Handler.Setup.check_values
    mcp_authz.Handler.Setup.check_value mcp_authz.Handler.Setup.check_names mcp_authz.Base.contains
    mcp_authz.Handler.Setup.check_registered mcp_authz.Handler.Setup.is_registered
    mcp_authz.Built.permission_for_route mcp_authz.Built.routes_for mcp_authz.Base.filter
    mcp_authz.Built.reaches mcp_authz.Built.tool_definition
    mcp_authz.Proxy.Setup.route_from_scope_key mcp_authz.Base.strip_prefix
    mcp_authz.Built.resource_definition mcp_authz.Base.lookup mcp_authz.Proxy.Setup.canonical
unknown_refused = refl

abbrev scoped_site : Site Principal
scoped_site = record site { scope_map = scoped.capability_scopes }

search_asked :
    In "search" (scopes_asked (gate_options scoped_site call token (some ann)) (some read_call))
unfolding scopes_asked gate_options mcp_authz.Base.dedup mcp_authz.Handler.resolve_capability_scopes
    mcp_authz.Handler.resource_routes mcp_authz.Scopes.scopes_for_capability
search_asked = inr (inl refl)

asked-advertised_example : In "search" (advertised_scopes scoped)
asked-advertised_example =
    asked-advertised scoped_site scoped scoped_checked refl refl refl call token (some ann)
      (some read_call) "search" search_asked

refusal_explained :
    explain_legacy_refusal
      (λ text.
        some (
          obj (field "error" (obj (field "message" (str "Unsupported protocol version") end)) end)))
      false
      "Unsupported protocol version"
    ≡ some (
        obj (
          field "error"
            (obj (field "message" (str ("Unsupported protocol version" ^^ advice)) end))
            end))
unfolding explain_legacy_refusal mcp_authz.Handler.Legacy.includes mcp_authz.Base.strip_prefix
    mcp_authz.Handler.Legacy.with_advice mcp_authz.Json.string? mcp_authz.Json.own
    mcp_authz.Base.put
refusal_explained = refl
