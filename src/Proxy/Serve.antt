-- ===== src/Proxy/Serve.antt =====
-- proxy.ts: the steps of `createMcpProxy` from the bearer token to the forwarded request, which stop at the
-- first refusal.
pub mod Admitted
use mcp_authz.Base.{
  ℕ, Bool, true, false, not, String, List, [], ◌∷◌, ◌++◌, Option, none, some, Result, ok, err,
  ◌>>=◌, ◌>>◌, refuse_if, is_empty, head?, or_else, map, flat_map, dedup, strip_prefix,
  if◌then◌else◌, ◌==◌,
}
use mcp_authz.Json.{Json}
use mcp_authz.Policy.{Identity, Principal, Policy, PolicyError, can}
use mcp_authz.Policy.Decide.{decide}
use mcp_authz.Scopes.{ScopeMap, scopes_for_capability}
use mcp_authz.Routing.{Request, RequestId, Route, is_post, request_id}
use mcp_authz.Ladder.{
  Reader, Preflight, Reply, protocol_error, policy_denied, sdk_answer, unhandled,
  permission_for_flat_map,
}
use mcp_authz.Ladder.Gate.{
  Decision, DecisionEvent, Refused, Options, emit_decision, principal_label, not_permitted,
  run_scoped_gate,
}
use mcp_authz.Proxy.{
  Resource, entry_of, covering_resources, Reached, targets, malformed, unforwarded, reach,
  authorize_message,
}

-- `AuthInfo`, as the steps read it: whose token it is and the scopes it carries.
pub record Auth : Type 0 where
  pub subject : String
  pub scopes : List String

-- How `mapIdentity` fails: with an `AccessDeniedError`, or with an error that the code throws on.
pub data IdentityFailure : Type 0 where
  access_denied : (message : String) → IdentityFailure
  identity_error : IdentityFailure

-- What `createMcpProxy` keeps of its options, and the code that it calls: the SDK's bearer check by the
-- status of its refusal, the mapping of identities, and the record.
pub record Proxy : Type 0 where
  pub lower : String → String
  pub reader : Reader
  pub verify : Request → Result ℕ Auth
  pub map_identity : Auth → Result IdentityFailure Identity
  pub policy : Policy
  pub permissions : List (String × String)
  pub resources : List Resource
  pub definitions : List (String × Json)
  pub changed : List String → Option String
  pub check_arguments : String → Json → Json → Option String
  pub required_scopes : List String
  pub capability_scopes : Option ScopeMap
  pub max_request_bytes : ℕ
  pub on_decision : Bool
  pub emitter : Option String
  pub resource_metadata_url : String
  pub at : String

abbrev stop {ℓ} : {A : Type ℓ} → Reply → Result Refused A
stop reply = err (record { reply = reply; events = [] })

-- The decisions reported before a later refusal.
unfoldable pub after {ℓ} : {A : Type ℓ} → List DecisionEvent → Result Refused A → Result Refused A
after events (ok a) = ok a
after events (err r) = err (record { reply = r.reply; events = events ++ r.events })

abbrev some_if_any : List String → Option (List String)
some_if_any [] = none
some_if_any (s ∷ ss) = some (dedup (s ∷ ss))

module _ (x : Proxy) where
  abbrev baseline : String
  baseline = or_else (head? x.required_scopes) "mcp"

  -- The scopes that one reached request asks for; a label that is covered begins with `resource:`.
  abbrev target_scopes : ScopeMap → Route → List String
  target_scopes scope_map target =
      if target.method == "resources/read"
      then flat_map
          (λ (r : Resource).
            scopes_for_capability (some target.method)
              (some (or_else (strip_prefix "resource:" r.label) r.label)) scope_map baseline)
          (covering_resources x.resources (or_else target.name "undefined"))
      else scopes_for_capability (some target.method) target.name scope_map baseline

  abbrev scopes_of : Route → Option ScopeMap → Reached → Option (List String)
  scopes_of route (some scope_map) (Reached.targets reached) =
      if route.method == "tools/call"
      then none
      else some_if_any (flat_map (target_scopes scope_map) reached)
  scopes_of route _ _ = none

  -- `resolveCapabilityScopes`
  pub resolve_scopes : Route → Option (List String)
  resolve_scopes route = scopes_of route x.capability_scopes (reach route)

  abbrev pub is_scoped : Option ScopeMap → Bool
  is_scoped none = false
  is_scoped (some m) = true

  -- The options with which the step `gate` calls `runScopedGate`; it names no emitter.
  unfoldable pub gate_options : Request → Auth → Principal → Options
  gate_options req auth principal = record {
    request = req;
    token_scopes = auth.scopes;
    principal = some principal;
    max_request_bytes = x.max_request_bytes;
    required_scopes = x.required_scopes;
    scoped = is_scoped x.capability_scopes;
    routed = true;
    strict_classification = true;
    scope_map = x.capability_scopes;
    resolve_capability_scopes = resolve_scopes;
    scopes_for_request = λ r route. x.required_scopes;
    resolve_permission = λ route.
        permission_for_flat_map x.permissions route (map entry_of x.resources) (can principal);
    on_decision = x.on_decision;
    emitter = none;
    resource_metadata_url = x.resource_metadata_url;
    at = x.at;
  }

  abbrev speaks_old : RequestId → Result Refused Route
  speaks_old id = stop (
      protocol_error 400 32600
        "This proxy speaks MCP 2026-07-28: send the Mcp-Method and Mcp-Name routing headers." none
        id)

  unfoldable pub require_modern : Option Preflight → Result Refused Route
  require_modern none = speaks_old RequestId.null_id
  require_modern (some p) =
      if p.headers_validated then ok p.route else speaks_old (request_id p.route.body)

  -- The step `gate`.
  unfoldable pub gate : Request → Auth → Principal → Result Refused Route
  gate req auth principal = do
    preflight ← run_scoped_gate x.reader (gate_options req auth principal)
    require_modern preflight

  abbrev verified : Result ℕ Auth → Result Refused Auth
  verified (ok auth) = ok auth
  verified (err status) = stop (sdk_answer status)

  abbrev identified : Result IdentityFailure Identity → Result Refused Identity
  identified (ok identity) = ok identity
  identified (err (access_denied message)) = stop (policy_denied message)
  identified (err identity_error) = stop unhandled

  abbrev decided : Result PolicyError Principal → Result Refused Principal
  decided (ok principal) = ok principal
  decided (err e) = stop unhandled

  -- The step `authorize`: no permission at all is a refusal.
  unfoldable pub authorize : Auth → Result Refused Principal
  authorize auth = do
    identity ← identified (x.map_identity auth)
    principal ← decided (decide x.lower x.policy identity)
    refuse_if (is_empty principal.permissions) (record {
      reply = policy_denied (not_permitted (principal_label principal) "the access policy");
      events =
          emit_decision x.on_decision (some principal) Decision.deny (some "not_permitted")
            x.emitter x.at;
    })
    ok principal

  -- The step `price`.
  unfoldable pub price : Principal → Route → Result Refused (Unit {0})
  price principal route =
      authorize_message principal x.permissions x.resources x.definitions x.changed
        x.check_arguments x.on_decision x.emitter x.at route

  -- From the check of the method to what is forwarded: a principal and the route of its request. The
  -- permission to enter is reported before the steps that may still refuse.
  unfoldable pub admit : Request → Result Refused (Principal × Route)
  admit req = do
    refuse_if (not (is_post req.method)) (record { reply = sdk_answer 405; events = [] })
    auth ← verified (x.verify req)
    principal ← authorize auth
    route ←
        after (emit_decision x.on_decision (some principal) Decision.allow none x.emitter x.at)
          (gate req auth principal)
    after (emit_decision x.on_decision (some principal) Decision.allow none x.emitter x.at)
        (price principal route)
    ok (principal, route)
