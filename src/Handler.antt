-- ===== src/Handler.antt =====
-- handler.ts: `mcpFetch`, from a request to what the SDK's handler is given, with the decisions that the sink is told
-- of. Setup has the checks of `createMcpFetch` before it serves. `Context` is what the host resolves for a request.
pub mod Setup
pub mod Authorized
pub mod Covered
pub mod Passage
pub mod Advertised
pub mod Legacy
pub mod Tests
use mcp_authz.Base.{
  ℕ, Bool, true, false, not, ◌&&◌, ◌||◌, String, List, [], ◌∷◌, ◌++◌, Option, none, some, Result,
  ok, err, ◌>>=◌, ◌>>◌, refuse_if, is_some, is_empty, or_else, or_option, head?, map, find,
  flat_map, dedup, length, if◌then◌else◌, ◌==◌, ◌^^◌,
}
use mcp_authz.Policy.{Identity, Principal, Policy, PolicyError, can}
use mcp_authz.Policy.Decide.{decide}
use mcp_authz.Scopes.{ScopeMap, scopes_for_capability}
use mcp_authz.Routing.{Request, Route}
use mcp_authz.Ladder.{Kind, resource, Reply, Preflight, Reader}
use mcp_authz.Ladder.Gate.{
  Decision, allow, deny, DecisionEvent, Options, Refused, emit_decision, principal_label,
  not_permitted, run_scoped_gate,
}
use mcp_authz.Proxy.Serve.{Auth, IdentityFailure, access_denied, identity_error}
use mcp_authz.Built.{Factory, Match, routes_for}

-- Who decides on a caller: a policy, code of the host (whose answer may be no principal), or nobody before `resolve`.
pub data Authorizer : Type 0 where
  by_policy : Policy → Authorizer
  by_host : (Identity → Result IdentityFailure (Option Principal)) → Authorizer
  nobody : Authorizer

-- How `resolve` fails: with an `AccessDeniedError`, or with an error that the code throws on.
pub data Unresolved : Type 0 where
  denied : (reason message : String) → Unresolved
  broken : Unresolved

-- What `createMcpFetch` keeps of its options, and the code that it calls.
pub record Site (Context : Type 0) : Type 0 where
  pub lower : String → String
  pub reader : Reader
  pub is_metadata : Request → Bool
  pub pathname : Request → String
  pub health_path : String
  pub resource_path : String
  pub verify : Request → Result ℕ Auth
  pub map_identity : Auth → Result IdentityFailure Identity
  pub authorizer : Authorizer
  pub resolve : Option (Identity → Option Principal → Result Unresolved Context)
  -- a principal, where it is the context itself
  pub context_of : Principal → Context
  pub factory : Option Factory
  pub required : Option (List (String × String))
  pub required_scopes : List String
  pub scope_map : Option ScopeMap
  pub scopes_for_request : Option (Request → Route → List String)
  pub max_request_bytes : ℕ
  pub on_decision : Bool
  pub emitter : Option String
  pub resource_metadata_url : String
  pub at : String

-- What the health route tells of who decides.
pub data Mode : Type 0 where
  policy_mode : (roles permissions : ℕ) → Mode
  authorizer_mode resolver_mode : Mode

-- What the code answers with before the SDK's handler is reached.
pub data Answer : Type 0 where
  metadata : Answer
  health : Mode → (capabilities : Option ℕ) → Answer
  elsewhere : Answer
  -- the SDK's refusal of a token, by its status
  unauthorized : ℕ → Answer
  policy_denied : (message : String) → Answer
  refused : Reply → Answer
  -- an error that the code throws on
  thrown : Answer

pub record Stopped : Type 0 where
  pub answer : Answer
  pub events : List DecisionEvent

pub record Served (Context : Type 0) : Type 0 where
  pub context : Context
  pub preflight : Option Preflight
  pub events : List DecisionEvent

abbrev pub quiet : Answer → Stopped
quiet answer = record { answer = answer; events = [] }

module _ {Context : Type 0} (x : Site Context) where
  abbrev pub mode_of : Authorizer → Mode
  mode_of (by_policy policy) =
      policy_mode (length policy.roles)
        (length (dedup (flat_map (λ (role : String × List String). role.1) policy.roles)))
  mode_of (by_host authorize) = authorizer_mode
  mode_of nobody = resolver_mode

  abbrev count : Option (List (String × String)) → Option ℕ
  count none = none
  count (some permissions) = some (length permissions)

  -- The health route's answer: counts, not names.
  pub health_answer : Answer
  health_answer = health (mode_of x.authorizer) (count x.required)

  abbrev pub verified : Result ℕ Auth → Result Stopped Auth
  verified (ok auth) = ok auth
  verified (err status) = err (quiet (unauthorized status))

  abbrev pub or_failed {ℓ} : {A : Type ℓ} → Result IdentityFailure A → Result Stopped A
  or_failed (ok a) = ok a
  or_failed (err (access_denied message)) = err (quiet (policy_denied message))
  or_failed (err identity_error) = err (quiet thrown)

  abbrev pub of_policy : Result PolicyError Principal → Result Stopped Principal
  of_policy (ok p) = ok p
  of_policy (err e) = err (quiet thrown)

  -- A principal that holds something.
  abbrev pub holding : Principal → Result Stopped (Option Principal)
  holding p =
      refuse_if (is_empty p.permissions) (record {
        answer = policy_denied (not_permitted (principal_label p) "the access policy");
        events =
            emit_decision x.on_decision (some p) Decision.deny (some "not_permitted") x.emitter
              x.at;
      })
      >> ok (some p)

  abbrev pub checked : Option Principal → Result Stopped (Option Principal)
  checked none = err (quiet thrown)
  checked (some p) = holding p

  abbrev pub authorized_by : Authorizer → Identity → Result Stopped (Option Principal)
  authorized_by (by_policy policy) identity = of_policy (decide x.lower policy identity) >>= holding
  authorized_by (by_host decision) identity = or_failed (decision identity) >>= checked
  authorized_by nobody identity = ok none

  -- `authorize`
  pub authorize : Identity → Result Stopped (Option Principal)
  authorize identity = authorized_by x.authorizer identity

  abbrev resource_routes_at : Route → Option Factory → Option String → List Match
  resource_routes_at route none name = []
  resource_routes_at route (some factory) none = []
  resource_routes_at route (some factory) (some name) =
      if route.method == "resources/read" && not (name == "")
      then routes_for factory resource name
      else []

  -- `resourceRoutes`
  pub resource_routes : Route → List Match
  resource_routes route = resource_routes_at route x.factory route.name

  abbrev pub scopes_over : Route → List Match → Option ScopeMap → Option (List String)
  scopes_over route [] scope_map = none
  scopes_over route (m ∷ more) none = none
  scopes_over route (m ∷ more) (some scope_map) = some (
      dedup (
        flat_map
          (λ (match : Match).
            scopes_for_capability (some route.method) (some match.route_name) scope_map
              (or_else (head? x.required_scopes) "mcp"))
          (m ∷ more)))

  -- `resolveCapabilityScopes`
  pub resolve_capability_scopes : Route → Option (List String)
  resolve_capability_scopes route = scopes_over route (resource_routes route) x.scope_map

  abbrev pub fails : Option Principal → Match → Bool
  fails none match = false
  fails (some p) match = not (can p match.permission)

  abbrev priced : Option Match → Option String
  priced none = none
  priced (some match) = some match.permission

  abbrev route_price : Option Factory → Route → Option String
  route_price none route = mcp_authz.Ladder.permission_for_route none none route
  route_price (some factory) route =
      mcp_authz.Ladder.permission_for_route (some (mcp_authz.Built.permission_for_route factory))
        (some factory.route_permissions) route

  abbrev pub price_over : Option Principal → Route → List Match → Option String
  price_over principal route [] = route_price x.factory route
  price_over principal route (m ∷ more) =
      priced (or_option (find (fails principal) (m ∷ more)) (some m))

  -- `resolvePermission`: of the registrations that a read reaches, the first that the caller fails, or the first.
  pub resolve_permission : Option Principal → Route → Option String
  resolve_permission principal route = price_over principal route (resource_routes route)

  abbrev scopes_of_host : Option (Request → Route → List String) → Request → Route → List String
  scopes_of_host none request route = x.required_scopes
  scopes_of_host (some scopes) request route = scopes request route

  -- The options of `runScopedGate`.
  pub gate_options : Request → Auth → Option Principal → Options
  gate_options request auth principal = record {
    request = request;
    token_scopes = auth.scopes;
    principal = principal;
    max_request_bytes = x.max_request_bytes;
    required_scopes = x.required_scopes;
    scoped = is_some x.scope_map || is_some x.scopes_for_request;
    routed = is_some x.factory;
    strict_classification = false;
    scope_map = x.scope_map;
    resolve_capability_scopes = resolve_capability_scopes;
    scopes_for_request = scopes_of_host x.scopes_for_request;
    resolve_permission = resolve_permission principal;
    on_decision = x.on_decision;
    emitter = x.emitter;
    resource_metadata_url = x.resource_metadata_url;
    at = x.at;
  }

  abbrev pub gated : Result Refused (Option Preflight) → Result Stopped (Option Preflight)
  gated (ok preflight) = ok preflight
  gated (err r) = err (record { answer = refused r.reply; events = r.events })

  -- What is told of a caller who enters, and of one whose context is denied.
  abbrev pub told : Option Principal → Decision → Option String → List DecisionEvent
  told principal decision reason =
      emit_decision x.on_decision principal decision reason x.emitter x.at

  abbrev pub resolved : Option Principal → Result Unresolved Context → Result Stopped Context
  resolved principal (ok context) = ok context
  resolved principal (err (denied reason message)) =
      err (record { answer = policy_denied message; events = told principal deny (some reason) })
  resolved principal (err broken) = err (quiet thrown)

  abbrev context_by :
      Option (Identity → Option Principal → Result Unresolved Context)
      → Identity
      → Option Principal
      → Result Unresolved Context
  context_by (some resolve) identity principal = resolve identity principal
  context_by none identity (some p) = ok (x.context_of p)
  context_by none identity none = err broken

  -- What `resolve` makes of the caller, or the principal itself.
  pub context_for : Identity → Option Principal → Result Unresolved Context
  context_for identity principal = context_by x.resolve identity principal

  -- `enrichIdentity`; where nobody has decided, there is no decision to tell of.
  pub enrich : Identity → Option Principal → Result Stopped Context
  enrich identity principal = resolved principal (context_for identity principal)

  -- `mcpFetch`, up to the call of the SDK's handler.
  pub serve : Request → Result Stopped (Served Context)
  serve request =
      refuse_if (x.is_metadata request) (quiet metadata)
      >> (refuse_if (x.pathname request == x.health_path) (quiet health_answer)
          >> (refuse_if (not (x.pathname request == x.resource_path)) (quiet elsewhere)
              >> (verified (x.verify request) >>= λ auth.
                  or_failed (x.map_identity auth) >>= λ identity.
                  authorize identity >>= λ principal.
                  gated (run_scoped_gate x.reader (gate_options request auth principal))
                  >>= λ preflight. enrich identity principal >>= λ context. ok (record {
                    context = context;
                    preflight = preflight;
                    events = told principal allow none;
                  }))))
