-- ===== src/Guard/Ran.antt =====
-- When the handler runs, and what its result is worth.
use mcp_authz.Base.{
  Bool, true, false, String, ◌≡◌, refl, sym, ◌∙◌, ◌≢◌, ◌↔◌, inl, inr, List, [], ◌∷◌, ◌++◌, Option,
  none, some, err, In, In-append, In-append_right, Bool-cases, if◌then◌else◌, ℕ, ap, subst, eq_iff,
  ◌==◌,
}
use mcp_authz.Policy.{Principal}
use mcp_authz.Scopes.{trim}
use mcp_authz.Ladder.{Kind}
use mcp_authz.Guard.{
  AuditEvent, ApprovalDecision, Asked, answered, threw, silent, audit_refused, Act, wrote, lost,
  reported, asked, ran, Run, Guards, Call, decide_within, names_someone, attempted, delivered,
  deliver, outcome_of, finish, refuse_call, decided, proceed, begin_with, guarded,
}

apart : true ≢ false
apart e = cc

module _ {T : Type 0} (kind : Kind) (name permission : String) (principal : Principal)
    (guards : Guards) (call : Call T) where
  -- The answer came in time, and it is one by which a person approves whose name has more than blanks.
  abbrev pub IsApproved : Asked → Type 0
  IsApproved answer =
      (decision : ApprovalDecision) × (by : String) × (answer ≡ answered decision)
      × (decision.approved ≡ true)
      × (decision.by ≡ some by)
      × (trim by ≢ "")

  abbrev Names : ApprovalDecision → Type 0
  Names decision = (decision.approved ≡ true) × (names_someone decision.by ≡ true)

  -- The sink, where there is one, has taken the attempt.
  abbrev pub IsRecorded : Option (AuditEvent → Bool) → Type 0
  IsRecorded none = Unit
  IsRecorded (some sink) = sink (attempted kind name permission principal guards call) ≡ true

  abbrev pub MayRun : Type 0
  MayRun = IsRecorded guards.on_audit × (call.asking ≡ true → IsApproved call.answer)

  names_someone_sound :
      (by : Option String)
      → names_someone by ≡ true
      → (name : String) × (by ≡ some name) × (trim name ≢ "")
  unfolding names_someone
  names_someone_sound none h = cc
  names_someone_sound (some name) h =
      (name, refl, λ e. let t = (eq_iff (trim name) "").1 e in cc (rw t at h))

  names_someone_complete : (name : String) → trim name ≢ "" → names_someone (some name) ≡ true
  unfolding names_someone
  names_someone_complete name n = elim (Bool-cases (trim name == "")) [
    | inl t ↦ absurd (n ((eq_iff (trim name) "").0 t))
    | inr f ↦ rw f
  ]

  decide_within_iff :
      (ms : ℕ) (answer : Asked) → Names (decide_within ms answer) ↔ IsApproved answer
  unfolding decide_within
  decide_within_iff ms (answered decision) = (
    λ h. let (by, e, n) = names_someone_sound decision.by h.1 in (decision, by, refl, h.0, e, n),
    λ (other, by, same, yes_to, named, n).
        let k : decision ≡ other = ap (decision_of decision) same in
        subst (λ d. Names d) (sym k)
          (yes_to, subst (λ o. names_someone o ≡ true) (sym named) (names_someone_complete by n)),
  )
    where
      decision_of : ApprovalDecision → Asked → ApprovalDecision
      decision_of d (answered other) = other
      decision_of d _ = d
  decide_within_iff ms (threw message) = (λ h. cc (h.0), λ h. cc (h.2))
  decide_within_iff ms silent = (λ h. cc (h.0), λ h. cc (h.2))

  deliver-silent :
      (e : AuditEvent) → ¬ In ran (deliver kind name permission principal guards call e)
  unfolding deliver
  deliver-silent e i = quiet guards.on_audit i
    where
      only :
          (b c : Bool) (e : AuditEvent)
          → In ran (if b then wrote e ∷ [] else if c then reported e ∷ [] else [])
          → ⊥
      only true c e (inl same) = cc
      only true c e (inr f) = f
      only false true e (inl same) = cc
      only false true e (inr f) = f
      only false false e f = f

      quiet :
          (sink : Option (AuditEvent → Bool))
          → In ran (delivered kind name permission principal guards call sink e)
          → ⊥
      quiet none i = i
      quiet (some sink) i = only (sink e) guards.on_audit_error e i

  -- The handler runs in this run exactly when the condition holds, and then the result is its own.
  abbrev pub RunsWhen : Run T → Type 0 → Type 0
  RunsWhen r P =
      (In ran r.acts
        → P × (r.result ≡ outcome_of kind name permission principal guards call call.handler))
      × (P → In ran r.acts)

  finish-RunsWhen :
      (before : List Act) (by : Option String) (P : Type 0)
      → P
      → RunsWhen (finish kind name permission principal guards call before by) P
  unfolding finish
  finish-RunsWhen before by P p = (λ i. (p, refl), λ q. In-append_right ran before _ (inl refl))

  refuse_call-RunsWhen :
      (before : List Act) (reason : String) (by : Option String) (P : Type 0)
      → (¬ In ran before)
      → (¬ P)
      → RunsWhen (refuse_call kind name permission principal guards call before reason by) P
  unfolding refuse_call
  refuse_call-RunsWhen before reason by P quiet never = (
    λ i. absurd (elim (In-append ran before _ i) [ inl j ↦ quiet j | inr j ↦ deliver-silent _ j ]),
    λ p. absurd (never p),
  )

  decided-RunsWhen :
      (before : List Act) (decision : ApprovalDecision)
      → (¬ In ran before)
      → RunsWhen
          (decided kind name permission principal guards call before decision)
          (Names decision)
  decided-RunsWhen before decision quiet = elim (Bool-cases decision.approved) [
    | inr no_one ↦ rw no_one (refuse_call-RunsWhen before _ decision.by _ quiet (λ p. cc p.0))
    | inl approved ↦ elim (Bool-cases (names_someone decision.by)) [
      | inl known ↦ rw (approved, known) (finish-RunsWhen before decision.by _ (refl, refl))
      | inr unknown ↦
          rw (approved, unknown) (refuse_call-RunsWhen before _ none _ quiet (λ p. cc p.1))
    ]
  ]

  quiet_asked : (before : List Act) → (¬ In ran before) → ¬ In ran (before ++ asked ∷ [])
  quiet_asked before quiet i = elim (In-append ran before (asked ∷ []) i) [
    | inl j ↦ quiet j
    | inr j ↦ elim j [ inl same ↦ cc | inr f ↦ f ]
  ]

  RunsWhen_iff : (r : Run T) (P Q : Type 0) → (P → Q) → (Q → P) → RunsWhen r P → RunsWhen r Q
  RunsWhen_iff r P Q f g (forth, back) = (λ i. (f (forth i).0, (forth i).1), λ q. back (g q))

  proceed-RunsWhen :
      (before : List Act)
      → (¬ In ran before)
      → RunsWhen
          (proceed kind name permission principal guards call before)
          (call.asking ≡ true → Names (decide_within guards.approval_timeout_ms call.answer))
  unfolding proceed
  proceed-RunsWhen before quiet = branch call.asking refl
    where
      branch :
          (b : Bool)
          → call.asking ≡ b
          → RunsWhen
              (if b
                then decided kind name permission principal guards call
                    (before ++ asked ∷ [])
                    (decide_within guards.approval_timeout_ms call.answer)
                else finish kind name permission principal guards call before none)
              (call.asking ≡ true → Names (decide_within guards.approval_timeout_ms call.answer))
      branch true asks =
          RunsWhen_iff _ (Names (decide_within guards.approval_timeout_ms call.answer)) _ (λ p e. p)
            (λ q. q asks)
            (decided-RunsWhen (before ++ asked ∷ [])
              (decide_within guards.approval_timeout_ms call.answer) (quiet_asked before quiet))
      branch false unasked = finish-RunsWhen before none _ (λ e. absurd (apart (sym e ∙ unasked)))

  begin_with-RunsWhen :
      (sink : Option (AuditEvent → Bool))
      → RunsWhen (begin_with kind name permission principal guards call sink) (
          IsRecorded sink
          × (call.asking ≡ true → Names (decide_within guards.approval_timeout_ms call.answer)))
  begin_with-RunsWhen none = branch call.asking refl
    where
      branch :
          (b : Bool)
          → call.asking ≡ b
          → RunsWhen
              (if b then proceed kind name permission principal guards call [] else record {
                acts = ran ∷ [];
                result = outcome_of kind name permission principal guards call call.handler;
              })
              (IsRecorded none
                × (call.asking ≡ true
                    → Names (decide_within guards.approval_timeout_ms call.answer)))
      branch true asks =
          RunsWhen_iff _
            (call.asking ≡ true → Names (decide_within guards.approval_timeout_ms call.answer)) _
            (λ p. (tt, p)) (λ q. q.1) (proceed-RunsWhen [] (λ f. f))
      branch false unasked =
          (λ i. ((tt, λ e. absurd (apart (sym e ∙ unasked))), refl), λ q. inl refl)
  begin_with-RunsWhen (some sink) =
      branch (sink (attempted kind name permission principal guards call)) refl
    where
      alone : (e : AuditEvent) → ¬ In ran (lost e ∷ [])
      alone e (inl same) = cc
      alone e (inr f) = f

      unrun : (e : AuditEvent) → ¬ In ran (wrote e ∷ [])
      unrun e (inl same) = cc
      unrun e (inr f) = f

      branch :
          (b : Bool)
          → sink (attempted kind name permission principal guards call) ≡ b
          → RunsWhen
              (if b
                then proceed kind name permission principal guards call
                    (wrote (attempted kind name permission principal guards call) ∷ [])
                else record {
                  acts = lost (attempted kind name permission principal guards call) ∷ [];
                  result = err audit_refused;
                })
              (IsRecorded (some sink)
                × (call.asking ≡ true
                    → Names (decide_within guards.approval_timeout_ms call.answer)))
      branch true taken =
          RunsWhen_iff _
            (call.asking ≡ true → Names (decide_within guards.approval_timeout_ms call.answer)) _
            (λ p. (taken, p)) (λ q. q.1) (proceed-RunsWhen (wrote _ ∷ []) (unrun _))
      branch false refused = (λ i. absurd (alone _ i), λ q. absurd (apart (sym q.0 ∙ refused)))

  -- The handler runs exactly when the audit sink, where there is one, has taken the record of the attempt,
  -- and a person, where one is to be asked, has answered in time that they approve, under a name that is
  -- not blank. What the call then answers with is the handler's own result, whatever becomes of the
  -- record of how it ended.
  pub guarded-ran_iff :
      (In ran (guarded kind name permission principal guards call).acts ↔ MayRun)
      × (In ran (guarded kind name permission principal guards call).acts
          → (guarded kind name permission principal guards call).result
            ≡ outcome_of kind name permission principal guards call call.handler)
  unfolding guarded
  guarded-ran_iff =
      let (forth, back) = begin_with-RunsWhen guards.on_audit in
      let judged = decide_within_iff guards.approval_timeout_ms call.answer in
      (
        (
          λ i. let (recorded, approved) = (forth i).0 in (recorded, λ e. judged.0 (approved e)),
          λ q. back (q.0, λ e. judged.1 (q.1 e)),
        ),
        λ i. (forth i).1,
      )
