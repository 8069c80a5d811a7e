-- ===== src/Ladder/Tests.antt =====
-- A tool call read, priced and let through, and one refused.
use mcp_authz.Base.{
  ℕ, ◌≤◌, true, false, Bool, String, ◌≡◌, refl, ◌↔◌, ◌⊎◌, inl, inr, ◌≢◌, List, [], ◌∷◌, Option,
  none, some, Result, ok, err, In, length, or_else, ◌==◌, ◌^^◌, if◌then◌else◌,
}
use mcp_authz.Base.Chars.{text_of?, codes}
use mcp_authz.Json.{Json}
use mcp_authz.Policy.{Principal, can}
use mcp_authz.Policy.Tests.{ann}
use mcp_authz.Routing.{Request, Route}
use mcp_authz.Routing.Tests.{call, call_body, call_text, call_route, sdk}
use mcp_authz.StrictJson.{has_duplicate_key}
use mcp_authz.Upstream.Capped.{whole}
use mcp_authz.Ladder.{
  Entry, Reader, Preflight, preflight_scoped_request, permission_for_flat_map, policy_denied,
}
use mcp_authz.Ladder.Prices.{permission_for_flat_map-covers}
use mcp_authz.Ladder.Reading.{IsRouted, preflight_scoped_request-eq-ok}
use mcp_authz.Ladder.Gate.{
  Options, Refused, Decision, deny, run_scoped_gate, is_classified, scopes_asked, route_permission,
  DecisionEvent, emit_decision, principal_label, not_permitted,
}
use mcp_authz.Ladder.Gate.Admits.{
  Admits, found, Permitted, run_scoped_gate_iff, run_scoped_gate-strict,
}
use mcp_authz.Ladder.Gate.Denied.{IsToldOfDenial, run_scoped_gate-denied}

-- A reader whose parser knows one text.
abbrev pub reader : Reader
reader = record {
  is_json = λ media. true;
  decode = λ bytes. or_else (text_of? bytes) "";
  parse = λ text. if text == call_text then some call_body else none;
  classify = sdk;
}

abbrev pub read_call : Preflight
read_call = record { body = call_body; route = call_route; headers_validated = true }

pub call-read : preflight_scoped_request reader call 1000 ≡ ok read_call
unfolding preflight_scoped_request mcp_authz.Ladder.read_capped mcp_authz.Upstream.read_capped_body
    codes mcp_authz.Ladder.parse_body text_of? has_duplicate_key mcp_authz.Ladder.settle_route
    mcp_authz.Routing.classify_scoped_request mcp_authz.Routing.is_post
    mcp_authz.Routing.check_outcome mcp_authz.Routing.check_method mcp_authz.Routing.name_source
    mcp_authz.Routing.check_name mcp_authz.Routing.check_decoded
    mcp_authz.Scopes.decode_mcp_name_header mcp_authz.Routing.name_at
call-read = refl

preflight_scoped_request-eq-ok_example :
    (true ≡ true)
    × (length (whole call.body) ≤ 1000)
    × (reader.parse (reader.decode (whole call.body)) ≡ some call_body)
    × (has_duplicate_key (reader.decode (whole call.body)) ≡ false)
    × IsRouted sdk call read_call
preflight_scoped_request-eq-ok_example =
    preflight_scoped_request-eq-ok reader call 1000 read_call call-read

-- The permission of a tool is `use-` and its name.
abbrev asks : Principal → Options
asks p = record {
  request = call;
  token_scopes = "mcp" ∷ "search" ∷ [];
  principal = some p;
  max_request_bytes = 1000;
  required_scopes = "mcp" ∷ [];
  scoped = false;
  routed = true;
  strict_classification = true;
  scope_map = none;
  resolve_capability_scopes = λ route. none;
  scopes_for_request = λ req route. "mcp" ∷ [];
  resolve_permission = λ route. some ("use-" ^^ or_else route.name "");
  on_decision = true;
  emitter = none;
  resource_metadata_url = "https://mcp.acme.com/.well-known";
  at = "2026-07-28T00:00:00Z";
}

run_scoped_gate_iff_example :
    (run_scoped_gate reader (asks ann) ≡ ok (some read_call))
    ↔ Admits reader (asks ann) (some read_call)
run_scoped_gate_iff_example = run_scoped_gate_iff reader (asks ann) (some read_call)

call-passed : run_scoped_gate reader (asks ann) ≡ ok (some read_call)
unfolding run_scoped_gate mcp_authz.Ladder.Gate.classified is_classified mcp_authz.Routing.is_post
    preflight_scoped_request mcp_authz.Ladder.read_capped mcp_authz.Upstream.read_capped_body codes
    mcp_authz.Ladder.parse_body text_of? has_duplicate_key mcp_authz.Ladder.settle_route
    mcp_authz.Routing.classify_scoped_request mcp_authz.Routing.check_outcome
    mcp_authz.Routing.check_method mcp_authz.Routing.name_source mcp_authz.Routing.check_name
    mcp_authz.Routing.check_decoded mcp_authz.Base.Chars.char_of? mcp_authz.Base.decimal
    mcp_authz.Base.lookup mcp_authz.Base.strip_prefix mcp_authz.Json.own mcp_authz.Json.record?
    route_permission mcp_authz.Routing.carries mcp_authz.Routing.request_id
    mcp_authz.Scopes.decode_mcp_name_header mcp_authz.Upstream.read_from mcp_authz.Routing.name_at
    mcp_authz.Ladder.Gate.require_headers mcp_authz.Ladder.Gate.require_permission can
    mcp_authz.Ladder.Gate.require_scopes mcp_authz.Base.filter scopes_asked
call-passed = refl

call-classified : (p : Principal) → is_classified (asks p) ≡ true
unfolding is_classified mcp_authz.Routing.is_post
call-classified p = refl

run_scoped_gate-strict_example :
    (p : Preflight) × (some read_call ≡ some p)
    × (preflight_scoped_request reader call 1000 ≡ ok p)
    × Permitted (some ann) (some ("use-" ^^ or_else p.route.name ""))
    × ((scope : String)
        → In scope (scopes_asked (asks ann) (some p))
        → In scope ("mcp" ∷ "search" ∷ []))
run_scoped_gate-strict_example =
    run_scoped_gate-strict reader (asks ann) (some read_call) (call-classified ann) (inr refl)
      call-passed

abbrev guest : Principal
guest = record {
  issuer = "https://idp.acme.com";
  sub = "guest";
  email = none;
  domain = none;
  roles = [];
  permissions = [];
}

guest-lacks : can guest "use-search" ≡ false
unfolding can
guest-lacks = refl

call-asks : route_permission (asks guest).resolve_permission (some read_call) ≡ some "use-search"
unfolding route_permission
call-asks = refl

run_scoped_gate-denied_example :
    (events : List DecisionEvent) × (run_scoped_gate reader (asks guest)
      ≡ err (record {
        reply = policy_denied (not_permitted (principal_label guest) "the permission 'use-search'");
        events = events;
      }))
    × IsToldOfDenial reader (asks guest) guest true events
run_scoped_gate-denied_example =
    run_scoped_gate-denied reader (asks guest) (some read_call) guest "use-search"
      (found read_call (call-classified guest) call-read) (λ scoped. refl) refl call-asks (λ e. cc)
      guest-lacks

abbrev entries : List Entry
entries =
    record { label = "resource:case"; permission = "read"; matches = λ uri. uri == "cases://1" }
    ∷ record { label = "resource:all"; permission = "audit"; matches = λ uri. true }
    ∷ []

abbrev case_read : Route
case_read = record { body = call_body; method = "resources/read"; name = some "cases://1" }

case-audited : permission_for_flat_map [] case_read entries (can ann) ≡ some "read"
unfolding permission_for_flat_map mcp_authz.Ladder.named mcp_authz.Ladder.first_failing
    mcp_authz.Base.find mcp_authz.Base.filter can
case-audited = refl

ann-reads : can ann "read" ≡ true
unfolding can
ann-reads = refl

permission_for_flat_map-covers_example : can ann "audit" ≡ true
permission_for_flat_map-covers_example =
    permission_for_flat_map-covers (can ann) [] entries "cases://1" call_body (λ e. cc) "read"
      case-audited ann-reads
      (record { label = "resource:all"; permission = "audit"; matches = λ uri. true })
      (inr (inl refl)) refl
