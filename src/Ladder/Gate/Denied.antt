-- ===== src/Ladder/Gate/Denied.antt =====
-- ladder.ts: the refusal for want of a permission, and what the sink of decision.ts is told of it.
use mcp_authz.Base.{
  Bool, true, false, String, ◌≡◌, refl, sym, ap, subst, ◌∙◌, ◌↔◌, ◌≢◌, inl, inr, List, [], ◌∷◌,
  arith, Option, none, some, err, eq_iff, unequal, Bool-cases, ◌==◌, ◌^^◌,
}
use mcp_authz.Policy.{Principal, can}
use mcp_authz.Ladder.{Preflight, Reader, policy_denied}
use mcp_authz.Ladder.Gate.{
  Options, route_permission, require_permission, run_scoped_gate, DecisionEvent, unless_empty,
  event_of, emit_decision, deny, not_permitted, principal_label,
}
use mcp_authz.Ladder.Gate.Admits.{
  HeadersAgree, IsSettled, require_headers_iff, IsSettled-classified,
}

module _ (reader : Reader) (o : Options) where
  -- The sink, where there is one, is told once that policy has denied this principal, by a deployment
  -- that has a name or by none.
  abbrev pub IsToldOfDenial : Principal → Bool → List DecisionEvent → Type 0
  IsToldOfDenial p false events = events ≡ []
  IsToldOfDenial p true events =
      (event : DecisionEvent) × (events ≡ event ∷ [])
      × (event.decision ≡ deny)
      × (event.reason ≡ some "policy_denied")
      × (event.issuer ≡ p.issuer)
      × (event.sub ≡ p.sub)
      × (event.email ≡ p.email)
      × (event.domain ≡ p.domain)
      × (event.roles ≡ p.roles)
      × (event.permissions ≡ p.permissions)
      × (event.at ≡ o.at)
      × ((name : String) → (event.emitter ≡ some name) ↔ ((o.emitter ≡ some name) × (name ≢ "")))

  unless_empty_iff :
      (text : Option String) (name : String)
      → (unless_empty text ≡ some name) ↔ ((text ≡ some name) × (name ≢ ""))
  unless_empty_iff none name = (λ h. cc, λ h. cc (h.0))
  unless_empty_iff (some s) name = elim (Bool-cases (s == "")) [
    | inl t ↦ (
      λ h. cc (rw t at h),
      λ h. let same : s ≡ name = ground (arith, h.0) in absurd (h.1 (sym same ∙ (eq_iff s "").0 t)),
    )
    | inr f ↦ (
      λ h.
          let same : s ≡ name = ground (arith, rw f at h) in
          (ap some same, subst (λ x. x ≢ "") same (unequal s "" f)),
      λ h. rw f h.0,
    )
  ]

  emit_decision-IsToldOfDenial :
      (p : Principal) (sink : Bool)
      → IsToldOfDenial p sink
          (emit_decision sink (some p) deny (some "policy_denied") o.emitter o.at)
  unfolding emit_decision event_of
  emit_decision-IsToldOfDenial p false = refl
  emit_decision-IsToldOfDenial p true =
      (_, refl, refl, refl, refl, refl, refl, refl, refl, refl, refl, unless_empty_iff o.emitter)

  -- Permission comes before scope: once the request is read and its headers vouch for it as far as that is
  -- asked, a principal without the permission of the route is refused by policy, and a sink is told of
  -- that denial once, with who was denied, whatever the scopes of the token.
  pub run_scoped_gate-denied :
      (preflight : Option Preflight) (p : Principal) (permission : String)
      → IsSettled reader o preflight
      → HeadersAgree o.scoped preflight
      → o.principal ≡ some p
      → route_permission o.resolve_permission preflight ≡ some permission
      → permission ≢ ""
      → can p permission ≡ false
      → (events : List DecisionEvent) × (run_scoped_gate reader o
          ≡ err (record {
            reply =
                policy_denied
                  (not_permitted (principal_label p) ("the permission '" ^^ permission ^^ "'"));
            events = events;
          }))
        × IsToldOfDenial p o.on_decision events
  unfolding run_scoped_gate require_permission
  run_scoped_gate-denied preflight p permission settled headers who asks stated lacks =
      elim (Bool-cases (permission == "")) [
        | inl e ↦ absurd (stated ((eq_iff permission "").0 e))
        | inr e ↦ (
          _,
          rw (
            IsSettled-classified reader o preflight settled,
            (require_headers_iff o preflight).1 headers,
            who,
            asks,
            e,
            lacks,
          ),
          emit_decision-IsToldOfDenial p o.on_decision,
        )
      ]
