-- ===== src/OpenApi/Serve.antt =====
-- openapi.ts: `openApiFetch`, a request's way to the API behind. A run is what the code tells its sinks and whether it
-- reaches the API, in order, and what it answers.
pub mod Reached
pub mod Matched
use Prim.Native.String
use mcp_authz.Base.{
  ℕ, ◌-◌, Bool, true, false, not, ◌&&◌, ◌||◌, String, List, [], ◌∷◌, ◌++◌, Option, none, some,
  Result, ok, err, nat_eq, leb, find, is_empty, lookup, map, or_else, strip_prefix, if◌then◌else◌,
  ◌==◌, ◌^^◌, decimal,
}
use Prim.Native.Char.{code}
use mcp_authz.Json.{Json, obj, of_entries}
use mcp_authz.Policy.{Identity, Principal, Policy, PolicyError}
use mcp_authz.Policy.Decide.{decide}
use mcp_authz.Ladder.Gate.{
  Decision, allow, deny, DecisionEvent, unless_empty, emit_decision, principal_label, not_permitted,
}
use mcp_authz.Guard.{Phase, attempt, success, failure}
use mcp_authz.Proxy.Serve.{Auth, IdentityFailure, access_denied, identity_error}
use mcp_authz.OpenApi.{Document, Operation, Price, absent, can_pay, price_text, filter_spec}
use mcp_authz.OpenApi.Routes.{sort_routes, matches}

-- `AuditEvent`, of a call of an operation.
pub record CallEvent : Type 0 where
  pub call_id : String
  pub issuer : String
  pub sub : String
  pub email : Option String
  pub domain : Option String
  pub emitter : Option String
  pub name : String
  pub price : Price
  pub resource : String
  pub phase : Phase
  pub at : String
  pub duration_ms : Option ℕ
  pub error : Option String

-- What the code does: a decision that the sink is told of, an event that the audit sink took or refused, one handed
-- to `onAuditError`, and the call of the API.
pub data Act : Type 0 where
  decided : DecisionEvent → Act
  wrote lost reported : CallEvent → Act
  reached : Act

pub data Answer : Type 0 where
  -- the SDK's answer to a request for its metadata, and its refusal of a token, by its status
  metadata : Answer
  refused : ℕ → Answer
  elsewhere not_found unavailable : Answer
  policy_denied : (message : String) → Answer
  document : Json → Answer
  -- the API's own answer, by its status
  answered : ℕ → Answer
  -- an error that the code throws on
  thrown : Answer

pub record Run : Type 0 where
  pub acts : List Act
  pub answer : Answer

-- Who decides on a caller: a policy, or code that the host brings.
pub data Decider : Type 0 where
  by_policy : Policy → Decider
  by_host : (Identity → Result IdentityFailure Principal) → Decider

-- What `createOpenApiFetch` keeps of its options, after the checks at boot.
pub record Api : Type 0 where
  pub lower : String → String
  pub spec : Document
  pub permissions : List (String × String)
  pub operations : List Operation
  pub priced : List (String × Price)
  pub server_path : String
  pub spec_path : String
  pub decider : Decider
  pub on_decision : Bool
  pub on_audit : Option (CallEvent → Bool)
  pub on_audit_error : Bool
  pub emitter : Option String

-- One request, with what the code around it does.
pub record Call : Type 0 where
  pub is_metadata : Bool
  pub pathname : String
  pub method : String
  pub auth : Result ℕ Auth
  pub identity : Auth → Result IdentityFailure Identity
  pub call_id : String
  pub begun : String
  pub ended : String
  pub took : ℕ
  -- the status that the API answers with, or the message of the error that it throws
  pub upstream : Result String ℕ

-- `pathname.replace(/\/$/, '')`
unfoldable pub without_slash : String → String
without_slash String.[] = ""
without_slash (String.◌∷◌ c s) =
    let rest = without_slash s in if nat_eq (code c) b'/' && s == "" then "" else String.◌∷◌ c rest

abbrev or_root : String → String
or_root path = if path == "" then "/" else path

module _ (api : Api) (call : Call) where
  abbrev pub told : Principal → Decision → Option String → List Act
  told p decision reason =
      map decided (emit_decision api.on_decision (some p) decision reason api.emitter call.ended)

  pub call_event : Principal → Operation → Price → String → Phase → Option String → CallEvent
  call_event p operation price route phase error = record {
    call_id = call.call_id;
    issuer = p.issuer;
    sub = p.sub;
    email = unless_empty p.email;
    domain = unless_empty p.domain;
    emitter = unless_empty api.emitter;
    name = operation.operation_id;
    price = price;
    resource = route;
    phase = phase;
    at = call.ended;
    duration_ms = some call.took;
    error = error;
  }

  pub attempted : Principal → Operation → Price → String → CallEvent
  attempted p operation price route = record (call_event p operation price route attempt none) {
    at = call.begun;
    duration_ms = none;
  }

  -- `deliver`
  pub deliver : (CallEvent → Bool) → CallEvent → List Act
  deliver sink event =
      if sink event
      then wrote event ∷ []
      else if api.on_audit_error
      then reported event ∷ []
      else []

  abbrev is_ok : ℕ → Bool
  is_ok status = leb 200 status && leb status 299

  abbrev pub ended_as : Principal → Operation → Price → String → Result String ℕ → CallEvent
  ended_as p operation price route (ok status) =
      if is_ok status
      then call_event p operation price route success none
      else call_event p operation price route failure (some ("HTTP " ^^ decimal status))
  ended_as p operation price route (err message) =
      call_event p operation price route failure (some message)

  abbrev pub answer_of : Result String ℕ → Answer
  answer_of (ok status) = answered status
  answer_of (err message) = thrown

  abbrev pub audited : Principal → Operation → Price → String → Option (CallEvent → Bool) → Run
  audited p operation price route none = record {
    acts = told p allow none ++ reached ∷ [];
    answer = answer_of call.upstream;
  }
  audited p operation price route (some sink) =
      if sink (attempted p operation price route)
      then record {
        acts =
            told p allow none
            ++ (wrote (attempted p operation price route)
                ∷ reached
                ∷ deliver sink (ended_as p operation price route call.upstream));
        answer = answer_of call.upstream;
      }
      else record {
        acts = told p allow none ++ lost (attempted p operation price route) ∷ [];
        answer = unavailable;
      }

  -- The call of an operation at its price.
  unfoldable pub call_at : Principal → Operation → Price → String → Run
  call_at p operation price route =
      if can_pay p price then audited p operation price route api.on_audit else record {
        acts = told p deny (some "not_permitted");
        answer = policy_denied (
            not_permitted (principal_label p)
              ("the permission '" ^^ price_text operation.operation_id price ^^ "'"));
      }

  -- The route that a request is matched by.
  unfoldable pub matched : String → Option Operation
  matched route =
      find (λ (o : Operation). o.method == api.lower call.method && matches o.path route)
        (sort_routes api.operations)

  -- `priced.get(matched.operationId)`
  abbrev pub price_at : Operation → Price
  price_at operation = or_else (lookup api.priced operation.operation_id) absent

  abbrev pub routed : Principal → String → Option Operation → Run
  routed p route none = record { acts = told p deny (some "no_such_operation"); answer = not_found }
  routed p route (some operation) = call_at p operation (price_at operation) route

  -- What a caller who holds something may do.
  unfoldable pub serve_route : Principal → String → Run
  serve_route p route =
      if route == api.spec_path
      then record {
        acts = told p allow none;
        answer = document (obj (of_entries (filter_spec api.spec p api.permissions)));
      }
      else routed p route (matched route)

  unfoldable pub enter : String → Principal → Run
  enter route p =
      if is_empty p.permissions
      then record {
        acts = told p deny (some "not_permitted");
        answer = policy_denied (not_permitted (principal_label p) "the access policy");
      }
      else serve_route p route

  abbrev pub fail : IdentityFailure → Run
  fail (access_denied message) = record { acts = []; answer = policy_denied message }
  fail identity_error = record { acts = []; answer = thrown }

  abbrev of_policy : Result PolicyError Principal → Result IdentityFailure Principal
  of_policy (ok p) = ok p
  of_policy (err e) = err identity_error

  abbrev principal_by : Decider → Identity → Result IdentityFailure Principal
  principal_by (by_policy policy) identity = of_policy (decide api.lower policy identity)
  principal_by (by_host authorize) identity = authorize identity

  abbrev principal_from : Result IdentityFailure Identity → Result IdentityFailure Principal
  principal_from (err failed) = err failed
  principal_from (ok identity) = principal_by api.decider identity

  -- The principal that a token stands for.
  unfoldable pub principal_of : Auth → Result IdentityFailure Principal
  principal_of auth = principal_from (call.identity auth)

  abbrev pub entered : String → Result IdentityFailure Principal → Run
  entered route (err failed) = fail failed
  entered route (ok p) = enter route p

  abbrev pub with_token : String → Result ℕ Auth → Run
  with_token route (err status) = record { acts = []; answer = refused status }
  with_token route (ok auth) = entered route (principal_of auth)

  abbrev pub under_base : Option String → Run
  under_base none = record { acts = []; answer = elsewhere }
  under_base (some rest) = with_token (or_root rest) call.auth

  -- `openApiFetch`
  unfoldable pub serve : Run
  serve =
      if call.is_metadata
      then record { acts = []; answer = metadata }
      else under_base (strip_prefix (without_slash api.server_path) call.pathname)
