-- ===== src/Guard/Told.antt =====
-- What the audit log is told of a call.
use mcp_authz.Base.{
  Bool, true, false, String, ◌≡◌, refl, sym, ap, subst, ◌∙◌, List, [], ◌∷◌, ◌++◌, Option, none,
  some, Result, ok, err, or_else, if◌then◌else◌,
}
use mathlib.Core.List.{append-nil}
use mcp_authz.Policy.{Principal}
use mcp_authz.Ladder.{Kind}
use mcp_authz.Ladder.Gate.{allow, deny}
use mcp_authz.Guard.{
  AuditEvent, ApprovalDecision, GuardError, handler_failed, approval_refused, attempt, success,
  failure, refusal, Act, wrote, lost, reported, asked, ran, Run, Guards, Call, decide_within,
  names_someone, event, attempted, deliver, finish, refuse_call, decided, proceed, begin_with,
  guarded, ended_with, outcome_of,
}

-- The events that a sink has taken.
abbrev pub written : List Act → List AuditEvent
written [] = []
written (wrote e ∷ acts) = e ∷ written acts
written (lost e ∷ acts) = written acts
written (reported e ∷ acts) = written acts
written (asked ∷ acts) = written acts
written (ran ∷ acts) = written acts

written-append : (xs ys : List Act) → written (xs ++ ys) ≡ written xs ++ written ys
written-append [] ys = refl
written-append (wrote e ∷ xs) ys = ap (λ l. e ∷ l) (written-append xs ys)
written-append (lost e ∷ xs) ys = written-append xs ys
written-append (reported e ∷ xs) ys = written-append xs ys
written-append (asked ∷ xs) ys = written-append xs ys
written-append (ran ∷ xs) ys = written-append xs ys

module _ {T : Type 0} where
  -- The event says what the call answered with: its phase, and a denial of what was refused.
  abbrev pub Tells : AuditEvent → Result GuardError T → Type 0
  Tells e (ok value) = (e.phase ≡ success) × (e.decision ≡ allow) × (e.error ≡ none)
  Tells e (err (handler_failed message)) =
      (e.phase ≡ failure) × (e.decision ≡ allow) × (e.error ≡ some message)
  Tells e (err (approval_refused name reason by)) =
      (e.phase ≡ refusal) × (e.decision ≡ deny) × (e.error ≡ some reason)
  Tells e (err GuardError.audit_refused) = ⊥

  -- The event is one of this call, by this principal.
  abbrev pub IsOfCall : Kind → String → String → Principal → Call T → AuditEvent → Type 0
  IsOfCall kind name permission principal call e =
      (e.call_id ≡ call.call_id)
      × (e.kind ≡ kind)
      × (e.name ≡ name)
      × (e.permission ≡ permission)
      × (e.resource ≡ call.resource)
      × (e.issuer ≡ principal.issuer)
      × (e.sub ≡ principal.sub)
      × (e.email ≡ principal.email)
      × (e.domain ≡ principal.domain)

module _ {T : Type 0} (kind : Kind) (name permission : String) (principal : Principal)
    (guards : Guards) (call : Call T) (sink : AuditEvent → Bool)
    (audited : guards.on_audit ≡ some sink) (takes : (e : AuditEvent) → sink e ≡ true) where
  deliver-written :
      (e : AuditEvent) → deliver kind name permission principal guards call e ≡ wrote e ∷ []
  unfolding deliver
  deliver-written e = rw (audited, takes e)

  abbrev IsOfThisCall : AuditEvent → Type 0
  IsOfThisCall e = IsOfCall kind name permission principal call e

  attempted-IsOfCall : IsOfThisCall (attempted kind name permission principal guards call)
  unfolding attempted
  attempted-IsOfCall = (refl, refl, refl, refl, refl, refl, refl, refl, refl)

  attempted_lem :
      ((attempted kind name permission principal guards call).phase ≡ attempt)
      × ((attempted kind name permission principal guards call).decision ≡ allow)
  unfolding attempted
  attempted_lem = (refl, refl)

  -- One more event, of the same call, which tells the result.
  abbrev Concludes : List Act → Run T → Type 0
  Concludes before r =
      (last : AuditEvent) × (written r.acts ≡ written before ++ last ∷ [])
      × IsOfThisCall last
      × Tells last r.result

  finish-Concludes :
      (before : List Act) (by : Option String)
      → Concludes before (finish kind name permission principal guards call before by)
  unfolding finish event
  finish-Concludes before by = concluded call.handler
    where
      concluded :
          (h : Result String T)
          → Concludes before (record {
            acts =
                before
                ++ ran
                  ∷ deliver kind name permission principal guards call
                      (ended_with kind name permission principal guards call by h);
            result = outcome_of kind name permission principal guards call h;
          })
      concluded (ok value) = (
        _,
        written-append before _ ∙ ap (λ l. written before ++ written l) (deliver-written _),
        (refl, refl, refl, refl, refl, refl, refl, refl, refl),
        (refl, refl, refl),
      )
      concluded (err message) = (
        _,
        written-append before _ ∙ ap (λ l. written before ++ written l) (deliver-written _),
        (refl, refl, refl, refl, refl, refl, refl, refl, refl),
        (refl, refl, refl),
      )

  refuse_call-Concludes :
      (before : List Act) (reason : String) (by : Option String)
      → Concludes before (refuse_call kind name permission principal guards call before reason by)
  unfolding refuse_call event
  refuse_call-Concludes before reason by = (
    _,
    written-append before _ ∙ ap (λ l. written before ++ written l) (deliver-written _),
    (refl, refl, refl, refl, refl, refl, refl, refl, refl),
    (refl, refl, refl),
  )

  decided-Concludes :
      (before : List Act) (decision : ApprovalDecision)
      → Concludes before (decided kind name permission principal guards call before decision)
  decided-Concludes before decision = branch decision.approved (names_someone decision.by)
    where
      branch :
          (b c : Bool)
          → Concludes before (
              if b
              then (if c
                  then finish kind name permission principal guards call before decision.by
                  else refuse_call kind name permission principal guards call before
                      "approval did not name who gave it" none)
              else refuse_call kind name permission principal guards call before
                  (or_else decision.reason "refused")
                  decision.by)
      branch true true = finish-Concludes before decision.by
      branch true false = refuse_call-Concludes before _ none
      branch false c = refuse_call-Concludes before _ decision.by

  proceed-Concludes :
      (before : List Act)
      → Concludes before (proceed kind name permission principal guards call before)
  unfolding proceed
  proceed-Concludes before = branch call.asking
    where
      after_asking : (r : Run T) → Concludes (before ++ asked ∷ []) r → Concludes before r
      after_asking r (last, w, i, t) = (
        last,
        w ∙ ap (λ l. l ++ last ∷ []) (written-append before (asked ∷ []) ∙ append-nil _),
        i,
        t,
      )

      branch :
          (b : Bool)
          → Concludes before (
              if b
              then decided kind name permission principal guards call
                  (before ++ asked ∷ [])
                  (decide_within guards.approval_timeout_ms call.answer)
              else finish kind name permission principal guards call before none)
      branch true =
          after_asking
            (decided kind name permission principal guards call (before ++ asked ∷ [])
              (decide_within guards.approval_timeout_ms call.answer))
            (decided-Concludes (before ++ asked ∷ [])
              (decide_within guards.approval_timeout_ms call.answer))
      branch false = finish-Concludes before none

  -- A sink that takes every event gets exactly two of each call, both under its id and of its caller, its
  -- capability and what it touches: the attempt, and then one whose phase, decision and error tell whether
  -- the handler succeeded, failed with its message, or was refused for a reason.
  pub guarded-Tells :
      (first last : AuditEvent) × (written (guarded kind name permission principal guards call).acts
        ≡ first ∷ last ∷ [])
      × IsOfCall kind name permission principal call first
      × (first.phase ≡ attempt)
      × (first.decision ≡ allow)
      × IsOfCall kind name permission principal call last
      × Tells last (guarded kind name permission principal guards call).result
  unfolding guarded
  guarded-Tells =
      let (last, both, same, tells) = concluded in
      (
        attempted kind name permission principal guards call,
        last,
        both,
        attempted-IsOfCall,
        attempted_lem.0,
        attempted_lem.1,
        same,
        tells,
      )
    where
      begun : List Act
      begun = wrote (attempted kind name permission principal guards call) ∷ []

      concluded :
          Concludes begun (begin_with kind name permission principal guards call guards.on_audit)
      concluded =
          subst (λ o. Concludes begun (begin_with kind name permission principal guards call o))
            (sym audited)
            (subst
              (λ b. Concludes begun (
                if b then proceed kind name permission principal guards call begun else record {
                  acts = lost (attempted kind name permission principal guards call) ∷ [];
                  result = err GuardError.audit_refused;
                }))
              (sym (takes (attempted kind name permission principal guards call)))
              (proceed-Concludes begun))
