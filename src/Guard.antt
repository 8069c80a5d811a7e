-- ===== src/Guard.antt =====
-- tools.ts: `guarding`, what stands around the handler of a tool, a prompt or a resource: a record of the
-- attempt, the question to a person, and the record of how it ended. A run is the acts that the code
-- performs, in order, and what it answers with. What the sinks, the person and the handler do is given.
pub mod Tests
pub mod Ran
pub mod Told
use mcp_authz.Base.{
  ℕ, Bool, true, false, not, ◌&&◌, String, List, [], ◌∷◌, ◌++◌, Option, none, some, Result, ok, err,
  is_some, or_else, if◌then◌else◌, ◌==◌, ◌^^◌, decimal,
}
use mcp_authz.Policy.{Principal}
use mcp_authz.Scopes.{trim}
use mcp_authz.Ladder.{Kind}
use mcp_authz.Ladder.Gate.{Decision, allow, deny, unless_empty}

pub data Phase : Type 0 where
  attempt success failure refusal : Phase

-- `AuditEvent`
pub record AuditEvent : Type 0 where
  pub call_id : String
  pub issuer : String
  pub sub : String
  pub email : Option String
  pub domain : Option String
  pub emitter : Option String
  pub kind : Kind
  pub name : String
  pub permission : String
  pub resource : Option String
  pub decision : Decision
  pub phase : Phase
  pub approved_by : Option String
  pub at : String
  pub duration_ms : Option ℕ
  pub error : Option String

-- `ApprovalDecision`
pub record ApprovalDecision : Type 0 where
  pub approved : Bool
  pub by : Option String
  pub reason : Option String

-- What becomes of the question: an answer in time, a sink that throws, or silence.
pub data Asked : Type 0 where
  answered : ApprovalDecision → Asked
  threw : (message : String) → Asked
  silent : Asked

pub data GuardError : Type 0 where
  audit_refused : GuardError
  approval_refused : (name reason : String) (by : Option String) → GuardError
  handler_failed : (message : String) → GuardError

-- What the code does to the world: an event that the sink took, one that it refused, one handed to
-- `onAuditError`, the question, and the handler.
pub data Act : Type 0 where
  wrote lost reported : AuditEvent → Act
  asked ran : Act

pub record Run (T : Type 0) : Type 0 where
  pub acts : List Act
  pub result : Result GuardError T

-- `Guards`: a sink answers whether it takes an event.
pub record Guards : Type 0 where
  pub on_audit : Option (AuditEvent → Bool)
  pub on_audit_error : Bool
  pub emitter : Option String
  pub approval_timeout_ms : ℕ

-- One call: whether a person is to be asked, and what the world does.
pub record Call (T : Type 0) : Type 0 where
  pub call_id : String
  pub resource : Option String
  pub asking : Bool
  pub answer : Asked
  pub handler : Result String T
  pub begun : String
  pub ended : String
  pub took : ℕ

-- `decideWithin`: silence and a sink that throws are refusals.
pub decide_within : ℕ → Asked → ApprovalDecision
decide_within ms (answered decision) = decision
decide_within ms (threw message) = record { approved = false; by = none; reason = some message }
decide_within ms silent = record {
  approved = false;
  by = none;
  reason = some ("no answer within " ^^ decimal ms ^^ "ms");
}

-- Whether the person who approved is named.
pub names_someone : Option String → Bool
names_someone none = false
names_someone (some by) = not (trim by == "")

module _ {T : Type 0} (kind : Kind) (name permission : String) (principal : Principal)
    (guards : Guards) (call : Call T) where
  pub event : Decision → Phase → Option String → Option String → AuditEvent
  event decision phase approved_by error = record {
    call_id = call.call_id;
    issuer = principal.issuer;
    sub = principal.sub;
    email = principal.email;
    domain = principal.domain;
    emitter = unless_empty guards.emitter;
    kind = kind;
    name = name;
    permission = permission;
    resource = call.resource;
    decision = decision;
    phase = phase;
    approved_by = approved_by;
    at = call.ended;
    duration_ms = some call.took;
    error = error;
  }

  pub attempted : AuditEvent
  attempted = record {
    call_id = call.call_id;
    issuer = principal.issuer;
    sub = principal.sub;
    email = principal.email;
    domain = principal.domain;
    emitter = unless_empty guards.emitter;
    kind = kind;
    name = name;
    permission = permission;
    resource = call.resource;
    decision = allow;
    phase = attempt;
    approved_by = none;
    at = call.begun;
    duration_ms = none;
    error = none;
  }

  abbrev pub delivered : Option (AuditEvent → Bool) → AuditEvent → List Act
  delivered none e = []
  delivered (some sink) e =
      if sink e then wrote e ∷ [] else if guards.on_audit_error then reported e ∷ [] else []

  -- `deliverTerminalAudit`, whose failure changes nothing.
  pub deliver : AuditEvent → List Act
  deliver e = delivered guards.on_audit e

  abbrev pub ended_with : Option String → Result String T → AuditEvent
  ended_with by (ok value) = event allow success by none
  ended_with by (err message) = event allow failure by (some message)

  abbrev pub outcome_of : Result String T → Result GuardError T
  outcome_of (ok value) = ok value
  outcome_of (err message) = err (handler_failed message)

  -- The handler runs, and how it ended is recorded.
  pub finish : List Act → Option String → Run T
  finish before by = record {
    acts = before ++ ran ∷ deliver (ended_with by call.handler);
    result = outcome_of call.handler;
  }

  -- No one has approved, and that is recorded.
  pub refuse_call : List Act → String → Option String → Run T
  refuse_call before reason by = record {
    acts = before ++ deliver (event deny refusal by (some reason));
    result = err (approval_refused name reason by);
  }

  abbrev pub decided : List Act → ApprovalDecision → Run T
  decided before decision =
      if decision.approved
      then (if names_someone decision.by
          then finish before decision.by
          else refuse_call before "approval did not name who gave it" none)
      else refuse_call before (or_else decision.reason "refused") decision.by

  -- What follows the attempt.
  pub proceed : List Act → Run T
  proceed before =
      if call.asking
      then decided (before ++ asked ∷ []) (decide_within guards.approval_timeout_ms call.answer)
      else finish before none

  abbrev pub begin_with : Option (AuditEvent → Bool) → Run T
  begin_with none =
      if call.asking
      then proceed []
      else record { acts = ran ∷ []; result = outcome_of call.handler }
  begin_with (some sink) =
      if sink attempted
      then proceed (wrote attempted ∷ [])
      else record { acts = lost attempted ∷ []; result = err audit_refused }

  -- The function that `guarding` returns.
  pub guarded : Run T
  guarded = begin_with guards.on_audit
