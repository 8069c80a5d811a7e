-- ===== src/Ladder/Gate.antt =====
-- ladder.ts: `runScopedGate`, and decision.ts, whose events it emits.
pub mod Admits
pub mod Denied
use mcp_authz.Base.{
  ℕ, Bool, true, false, not, ◌&&◌, ◌||◌, String, List, [], ◌∷◌, ◌++◌, Option, none, some, Result,
  ok, err, ◌>>=◌, ◌>>◌, refuse_if, or_else, head?, is_empty, filter, contains, dedup, if◌then◌else◌,
  ◌==◌, ◌^^◌,
}
use mcp_authz.Policy.{Principal, can}
use mcp_authz.Scopes.{ScopeMap, scopes_for_capability}
use mcp_authz.Routing.{Request, RequestId, Route, is_post, request_id}
use mcp_authz.Ladder.{
  Reply, Preflight, Reader, protocol_error, policy_denied, scope_challenge,
  preflight_scoped_request,
}

pub data Decision : Type 0 where
  allow deny : Decision

-- `AuthorizationDecisionEvent`
pub record DecisionEvent : Type 0 where
  pub issuer : String
  pub sub : String
  pub email : Option String
  pub domain : Option String
  pub emitter : Option String
  pub decision : Decision
  pub roles : List String
  pub permissions : List String
  pub reason : Option String
  pub at : String

-- `...(text ? { field: text } : {})`: an empty text is left out.
abbrev pub unless_empty : Option String → Option String
unless_empty none = none
unless_empty (some s) = if s == "" then none else some s

-- What the sink is told of a decision at the time `at`.
pub event_of : Principal → Decision → Option String → Option String → String → DecisionEvent
event_of p decision reason emitter at = record {
  issuer = p.issuer;
  sub = p.sub;
  email = p.email;
  domain = p.domain;
  emitter = unless_empty emitter;
  decision = decision;
  roles = p.roles;
  permissions = p.permissions;
  reason = unless_empty reason;
  at = at;
}

-- `emitDecision`, as the events that the sink is given, where there is one.
unfoldable pub emit_decision :
    Bool → Option Principal → Decision → Option String → Option String → String → List DecisionEvent
emit_decision sink none decision reason emitter at = []
emit_decision false (some p) decision reason emitter at = []
emit_decision true (some p) decision reason emitter at = event_of p decision reason emitter at ∷ []

-- `principalLabel`
unfoldable pub principal_label : Principal → String
principal_label p = or_else p.email (p.issuer ^^ "#" ^^ p.sub)

-- The message of `AccessDeniedError.notPermitted`.
pub not_permitted : String → String → String
not_permitted email policy_hint =
    email ^^ " matches no rule in " ^^ policy_hint
    ^^ ", so they hold no permissions. Ask an administrator to grant them a role."

-- The options of `runScopedGate`, with the request and the scopes of the token. The function of the
-- scopes is there where the gate is scoped and has no map.
pub record Options : Type 0 where
  pub request : Request
  pub token_scopes : List String
  pub principal : Option Principal
  pub max_request_bytes : ℕ
  pub required_scopes : List String
  pub scoped : Bool
  pub routed : Bool
  pub strict_classification : Bool
  pub scope_map : Option ScopeMap
  pub resolve_capability_scopes : Route → Option (List String)
  pub scopes_for_request : Request → Route → List String
  pub resolve_permission : Route → Option String
  pub on_decision : Bool
  pub emitter : Option String
  pub resource_metadata_url : String
  pub at : String

-- A refusal, with the decisions reported on the way.
pub record Refused : Type 0 where
  pub reply : Reply
  pub events : List DecisionEvent

-- Only a POST whose capability matters is classified.
unfoldable pub is_classified : Options → Bool
is_classified o = (o.scoped || o.routed) && is_post o.request.method

abbrev kept_from : Bool → Result Reply Preflight → Result Refused (Option Preflight)
kept_from fatal (ok p) = ok (some p)
kept_from true (err reply) = err (record { reply = reply; events = [] })
kept_from false (err reply) = ok none

-- What classification leaves to the rungs: a failure is fatal only where scopes or the caller ask it to be.
unfoldable pub classified : Reader → Options → Result Refused (Option Preflight)
classified reader o =
    if is_classified o
    then kept_from (o.scoped || o.strict_classification)
        (preflight_scoped_request reader o.request o.max_request_bytes)
    else ok none

-- A scope may be chosen only from a name that the headers and the body agree on.
unfoldable pub require_headers : Bool → Option Preflight → Result Refused (Unit {0})
require_headers scoped none = ok tt
require_headers scoped (some p) = refuse_if (scoped && not p.headers_validated) (record {
  reply =
      protocol_error 400 32020
        "Per-capability scopes require a 2026-07-28 request with matching MCP routing headers." none
        (request_id p.body);
  events = [];
})

-- The permission that the route asks for, where there is a route; an empty one asks for nothing.
unfoldable pub route_permission : (Route → Option String) → Option Preflight → Option String
route_permission resolve none = none
route_permission resolve (some p) = resolve p.route

unfoldable pub require_permission :
    Options → Option Principal → Option String → Result Refused (Unit {0})
require_permission o none permission = ok tt
require_permission o (some p) none = ok tt
require_permission o (some p) (some permission) =
    refuse_if (not (permission == "") && not (can p permission)) (record {
      reply =
          policy_denied
            (not_permitted (principal_label p) ("the permission '" ^^ permission ^^ "'"));
      events =
          emit_decision o.on_decision (some p) Decision.deny (some "policy_denied") o.emitter o.at;
    })

abbrev pub scopes_by : Options → Route → Option ScopeMap → List String
scopes_by o route none = o.scopes_for_request o.request route
scopes_by o route (some scope_map) = dedup (
    o.required_scopes
    ++ or_else (o.resolve_capability_scopes route) (
        scopes_for_capability (some route.method) route.name scope_map
          (or_else (head? o.required_scopes) "mcp")))

unfoldable pub scopes_asked : Options → Option Preflight → List String
scopes_asked o none = o.required_scopes
scopes_asked o (some p) = if o.scoped then scopes_by o p.route o.scope_map else o.required_scopes

unfoldable pub require_scopes : Options → List String → Result Refused (Unit {0})
require_scopes o scopes =
    refuse_if (not (is_empty (filter (λ scope. not (contains o.token_scopes scope)) scopes)))
      (record { reply = scope_challenge scopes o.resource_metadata_url; events = [] })

-- `runScopedGate`
unfoldable pub run_scoped_gate : Reader → Options → Result Refused (Option Preflight)
run_scoped_gate reader o = do
  preflight ← classified reader o
  require_headers o.scoped preflight
  require_permission o o.principal (route_permission o.resolve_permission preflight)
  require_scopes o (scopes_asked o preflight)
  ok preflight
