-- ===== src/OpenApi/Tests.antt =====
-- A document of two operations, and one caller's requests.
use mcp_authz.Base.{
  Bool, true, false, String, ◌≡◌, refl, ◌↔◌, inl, inr, List, [], ◌∷◌, Option, none, some, Result,
  ok, err, In, contains, lookup, if◌then◌else◌, ◌==◌,
}
use mcp_authz.Json.{Json, str, obj, end, field}
use mcp_authz.Policy.{Identity, Principal}
use mcp_authz.Ladder.Gate.{not_permitted}
use mcp_authz.OpenApi.{
  Document, Operation, Price, permission, boot, paths_of, operation_id, can_pay, filter_spec,
}
use mcp_authz.OpenApi.Filtered.{Describes}
use mcp_authz.OpenApi.Booted.{boot-agrees}
use mcp_authz.OpenApi.Serve.{Api, Call, by_host, policy_denied, serve, matched}
use mcp_authz.OpenApi.Serve.Reached.{Reaches, MayReach, serve-reached_iff}
use mcp_authz.OpenApi.Serve.Matched.{IsMostSpecific, matched-IsMostSpecific}

abbrev described : String → Json
described id = obj (field "operationId" (str id) end)

abbrev spec : Document
spec =
    ("openapi", str "3.1.0")
    ∷ (
      "paths",
      obj (
          field "/cases/{id}" (obj (field "get" (described "getCase") end))
            (field "/cases/search" (obj (field "get" (described "searchCases") end)) end)),
    )
    ∷ []

abbrev permissions : List (String × String)
permissions = ("getCase", "cases:read") ∷ ("searchCases", "cases:search") ∷ []

abbrev get_case : Operation
get_case = record { operation_id = "getCase"; method = "get"; path = "/cases/{id}" }

abbrev search_cases : Operation
search_cases = record { operation_id = "searchCases"; method = "get"; path = "/cases/search" }

abbrev priced : List (String × Price)
priced = ("getCase", permission "cases:read") ∷ ("searchCases", permission "cases:search") ∷ []

abbrev operations : List Operation
operations = get_case ∷ search_cases ∷ []

boots : boot spec permissions none ≡ ok (operations, priced)
unfolding boot mcp_authz.OpenApi.record_operations mcp_authz.OpenApi.record_paths mcp_authz.Json.own
    mcp_authz.OpenApi.record_methods mcp_authz.OpenApi.record_method operation_id
    mcp_authz.Json.string? mcp_authz.Base.put mcp_authz.OpenApi.price_all
    mcp_authz.Definitions.sorted_names mcp_authz.Definitions.sort_entries
    mcp_authz.Definitions.place mcp_authz.Definitions.before mcp_authz.Definitions.unit
    mcp_authz.OpenApi.price_of mcp_authz.OpenApi.all_described
boots = refl

abbrev reader : Principal
reader = record {
  issuer = "https://as";
  sub = "u1";
  email = none;
  domain = none;
  roles = "reader" ∷ [];
  permissions = "cases:read" ∷ [];
}

boot-agrees_example :
    (operation : Json) × (price : Price) × Describes (paths_of spec) "/cases/{id}" "get" operation
    × (operation_id operation ≡ some "getCase")
    × (lookup priced "getCase" ≡ some price)
    × (Describes (paths_of (filter_spec spec reader permissions)) "/cases/{id}" "get" operation
        ↔ (can_pay reader price ≡ true))
boot-agrees_example =
    boot-agrees spec permissions none operations priced boots get_case (inl refl) reader

abbrev api : Api
api = record {
  lower = λ t. if t == "GET" then "get" else t;
  spec = spec;
  permissions = permissions;
  operations = operations;
  priced = priced;
  server_path = "/api/";
  spec_path = "/openapi.json";
  decider = by_host (λ identity. ok reader);
  on_decision = true;
  on_audit = some (λ event. true);
  on_audit_error = true;
  emitter = none;
}

abbrev identity : Identity
identity = record {
  issuer = "https://as";
  sub = "u1";
  email = none;
  email_verified = false;
  domain = none;
  claims = end;
}

abbrev call : Call
call = record {
  is_metadata = false;
  pathname = "/api/cases/C1";
  method = "GET";
  auth = ok (record { subject = "u1"; scopes = "api" ∷ [] });
  identity = λ auth. ok identity;
  call_id = "id";
  begun = "2026-01-01T00:00:00.000Z";
  ended = "2026-01-01T00:00:01.000Z";
  took = 1000;
  upstream = ok 200;
}

matched_case : matched api call "/cases/C1" ≡ some get_case
unfolding matched mcp_authz.Base.find mcp_authz.OpenApi.Routes.sort_routes
    mcp_authz.OpenApi.Routes.place mcp_authz.OpenApi.Routes.precedes
    mcp_authz.OpenApi.Routes.template_count mcp_authz.OpenApi.Routes.count_char
    mcp_authz.Base.Chars.codes mcp_authz.OpenApi.Routes.matches mcp_authz.OpenApi.Routes.fit_all
    mcp_authz.OpenApi.Routes.segments mcp_authz.OpenApi.Routes.segments_from
    mcp_authz.OpenApi.Routes.fits mcp_authz.OpenApi.Routes.is_template
    mcp_authz.OpenApi.Routes.plain_to_close
matched_case = refl

matched_search : matched api call "/cases/search" ≡ some search_cases
unfolding matched mcp_authz.Base.find mcp_authz.OpenApi.Routes.sort_routes
    mcp_authz.OpenApi.Routes.place mcp_authz.OpenApi.Routes.precedes
    mcp_authz.OpenApi.Routes.template_count mcp_authz.OpenApi.Routes.count_char
    mcp_authz.Base.Chars.codes mcp_authz.OpenApi.Routes.matches mcp_authz.OpenApi.Routes.fit_all
    mcp_authz.OpenApi.Routes.segments mcp_authz.OpenApi.Routes.segments_from
    mcp_authz.OpenApi.Routes.fits mcp_authz.OpenApi.Routes.is_template
matched_search = refl

matched-IsMostSpecific_example :
    IsMostSpecific api call "/cases/search" (matched api call "/cases/search")
matched-IsMostSpecific_example = matched-IsMostSpecific api call "/cases/search"

serve_case : Reaches (serve api call)
unfolding serve mcp_authz.Base.strip_prefix mcp_authz.OpenApi.Serve.without_slash
    mcp_authz.OpenApi.Serve.principal_of mcp_authz.OpenApi.Serve.enter
    mcp_authz.OpenApi.Serve.serve_route matched mcp_authz.Base.find
    mcp_authz.OpenApi.Routes.sort_routes mcp_authz.OpenApi.Routes.place
    mcp_authz.OpenApi.Routes.precedes mcp_authz.OpenApi.Routes.template_count
    mcp_authz.OpenApi.Routes.count_char mcp_authz.Base.Chars.codes mcp_authz.OpenApi.Routes.matches
    mcp_authz.OpenApi.Routes.fit_all mcp_authz.OpenApi.Routes.segments
    mcp_authz.OpenApi.Routes.segments_from mcp_authz.OpenApi.Routes.fits
    mcp_authz.OpenApi.Routes.is_template mcp_authz.OpenApi.Routes.plain_to_close
    mcp_authz.OpenApi.Serve.call_at can_pay lookup mcp_authz.Policy.can
    mcp_authz.Ladder.Gate.emit_decision
serve_case = inr (inr (inl refl))

-- A caller who may only search cannot read a case.
serve_search_only :
    (serve
      (record api {
        decider = by_host (λ identity. ok (record reader { permissions = "cases:search" ∷ [] }));
      })
      call).answer
    ≡ policy_denied (not_permitted "https://as#u1" "the permission 'cases:read'")
unfolding serve mcp_authz.Base.strip_prefix mcp_authz.OpenApi.Serve.without_slash
    mcp_authz.OpenApi.Serve.principal_of mcp_authz.OpenApi.Serve.enter
    mcp_authz.OpenApi.Serve.serve_route matched mcp_authz.Base.find
    mcp_authz.OpenApi.Routes.sort_routes mcp_authz.OpenApi.Routes.place
    mcp_authz.OpenApi.Routes.precedes mcp_authz.OpenApi.Routes.template_count
    mcp_authz.OpenApi.Routes.count_char mcp_authz.Base.Chars.codes mcp_authz.OpenApi.Routes.matches
    mcp_authz.OpenApi.Routes.fit_all mcp_authz.OpenApi.Routes.segments
    mcp_authz.OpenApi.Routes.segments_from mcp_authz.OpenApi.Routes.fits
    mcp_authz.OpenApi.Routes.is_template mcp_authz.OpenApi.Routes.plain_to_close
    mcp_authz.OpenApi.Serve.call_at can_pay lookup mcp_authz.Policy.can
    mcp_authz.Ladder.Gate.principal_label
serve_search_only = refl

serve-reached_iff_example : Reaches (serve api call) ↔ MayReach api call
serve-reached_iff_example = serve-reached_iff api call
