-- ===== src/Proxy/Passed.antt =====
-- What a message that passes the proxy has been held to.
use mcp_authz.Base.{
  Bool, true, false, String, ◌≡◌, refl, sym, subst, ◌∙◌, ◌↔◌, ◌⊎◌, inl, inr, List, arith, Option,
  none, some, Result, ok, err, >>=-eq-ok, >>_iff, In, contains, contains_iff, Bool-cases, or_option,
  lookup, eq_iff, unequal, ◌==◌, ◌^^◌,
}
use mcp_authz.Json.{Json}
use mcp_authz.Policy.{Principal}
use mcp_authz.Routing.{Route}
use mcp_authz.Proxy.{
  Resource, pass_through, Reached, targets, malformed, unforwarded, at_key, reach, price_targets,
  price_reached, wrong_by, wrong_arguments, authorize_message, lifted, kept_by_record, answered,
}
use mcp_authz.Proxy.Priced.{
  IsSilent, unless_empty-IsSilent, name_of, labels_over, May, price_targets_sound,
  price_targets_complete,
}

-- The definition on record of a tool, under its name or else under its label.
abbrev pub IsDefinition : List (String × Json) → String → Json → Type 0
IsDefinition definitions tool definition =
    (lookup definitions tool ≡ some definition)
    ⊎ ((lookup definitions tool ≡ none) × (lookup definitions ("tool:" ^^ tool) ≡ some definition))

module _ (principal : Principal) (permissions : List (String × String)) (resources : List Resource)
    (definitions : List (String × Json)) (changed : List String → Option String)
    (check_arguments : String → Json → Json → Option String) where
  -- Nothing is wrong with the arguments of a tool whose definition is on record.
  abbrev pub ArgumentsPass : Route → Type 0
  ArgumentsPass route =
      route.method ≡ "tools/call"
      → (definition : Json) → IsDefinition definitions (name_of route) definition
      → IsSilent (
          check_arguments (name_of route) definition
            (at_key (at_key route.body "params") "arguments"))

  -- What lets a message pass that is not on the list of those that need no permission.
  pub record IsHeld (route : Route) : Type 0 where
    pub reached : List Route
    pub reaches : reach route ≡ targets reached
    pub may : (target : Route) → In target reached → May principal permissions resources target
    pub unchanged : IsSilent (changed (labels_over resources reached))
    pub arguments : ArgumentsPass route

  module _ (on_decision : Bool) (emitter : Option String) (at : String) where
    wrong_by-IsSilent :
        (tool : String) (arguments : Json) (named labelled : Option Json)
        → IsSilent (
            wrong_by principal permissions resources definitions changed check_arguments on_decision
              emitter at tool
              (or_option named labelled)
              arguments)
          ↔ ((definition : Json)
              → (named ≡ some definition) ⊎ ((named ≡ none) × (labelled ≡ some definition))
              → IsSilent (check_arguments tool definition arguments))
    wrong_by-IsSilent tool arguments (some d) labelled = (
      λ h definition found. elim found [
        | inl e ↦
            let same : d ≡ definition = ground arith in
            subst (λ x. IsSilent (check_arguments tool x arguments)) same h
        | inr e ↦ cc (e.0)
      ],
      λ h. h d (inl refl),
    )
    wrong_by-IsSilent tool arguments none (some d) = (
      λ h definition found. elim found [
        | inl e ↦ cc
        | inr e ↦
            let same : d ≡ definition = ground (arith, e.1) in
            subst (λ x. IsSilent (check_arguments tool x arguments)) same h
      ],
      λ h. h d (inr (refl, refl)),
    )
    wrong_by-IsSilent tool arguments none none =
        (λ h definition found. elim found [ inl e ↦ cc | inr e ↦ cc (e.1) ], λ h. inl refl)

    wrong_arguments_iff :
        (route : Route)
        → IsSilent (
            wrong_arguments principal permissions resources definitions changed check_arguments
              on_decision emitter at route)
          ↔ ArgumentsPass route
    unfolding wrong_arguments
    wrong_arguments_iff route = elim (Bool-cases (route.method == "tools/call")) [
      | inl calls ↦
          let (forth, back) = wrong_by-IsSilent (name_of route) _ _ _ in
          (
            λ h e. forth (rw calls at h),
            λ k. rw calls (back (k ((eq_iff route.method "tools/call").0 calls))),
          )
      | inr other ↦
          (λ h e. absurd (unequal route.method "tools/call" other e), λ k. rw other (inl refl))
    ]

    lifted-eq-ok :
        (r : Result String (List String)) (labels : List String)
        → lifted principal permissions resources definitions changed check_arguments on_decision
            emitter at r
          ≡ ok labels
        → r ≡ ok labels
    lifted-eq-ok (ok l) labels h = ground arith
    lifted-eq-ok (err because) labels h = cc

    kept_by_record-eq-ok :
        (o : Option String)
        → kept_by_record principal permissions resources definitions changed check_arguments
            on_decision emitter at o
          ≡ ok tt
        → o ≡ none
    kept_by_record-eq-ok none h = refl
    kept_by_record-eq-ok (some because) h = cc

    answered-eq-ok :
        (route : Route) (o : Option String)
        → answered principal permissions resources definitions changed check_arguments on_decision
            emitter at route o
          ≡ ok tt
        → o ≡ none
    answered-eq-ok route none h = refl
    answered-eq-ok route (some wrong) h = cc

    price_reached-eq-ok :
        (route : Route) (r : Reached)
        → reach route ≡ r
        → price_reached principal permissions resources definitions changed check_arguments
            on_decision emitter at route r
          ≡ ok tt
        → IsHeld route
    unfolding price_reached
    price_reached-eq-ok route unforwarded e h = cc
    price_reached-eq-ok route (malformed because) e h = cc
    price_reached-eq-ok route (targets reached) e h =
        let (labels, priced, rest) =
          >>=-eq-ok
            (lifted principal permissions resources definitions changed check_arguments on_decision
              emitter at (price_targets principal permissions resources reached))
            _ h in
        let (recorded, last) = (>>_iff _ _ _).0 rest in
        let (may, same) =
          price_targets_sound principal permissions resources reached labels
            (lifted-eq-ok _ labels priced) in
        record {
          reached = reached;
          reaches = e;
          may = may;
          unchanged =
              subst (λ l. IsSilent (changed l)) (sym same)
                ((unless_empty-IsSilent (changed labels)).0 (kept_by_record-eq-ok _ recorded));
          arguments =
              (wrong_arguments_iff route).0
                ((unless_empty-IsSilent _).0 (answered-eq-ok route _ last));
        }

    IsHeld-price_reached :
        (route : Route)
        → IsHeld route
        → price_reached principal permissions resources definitions changed check_arguments
            on_decision emitter at route
            (reach route)
          ≡ ok tt
    unfolding price_reached
    IsHeld-price_reached route k = rw (
      k.reaches,
      price_targets_complete principal permissions resources k.reached k.may,
      (unless_empty-IsSilent _).1 k.unchanged,
      (unless_empty-IsSilent _).1 ((wrong_arguments_iff route).1 k.arguments),
    )

    -- A message passes exactly when its method needs no permission, or when it reaches requests that the
    -- principal may each make -- a resource under every registration that covers its URI -- the record
    -- has no complaint about the labels of those requests, in their order, and the check of a tool's
    -- arguments against the definition on record has none.
    pub authorize_message_iff :
        (route : Route)
        → (authorize_message principal permissions resources definitions changed check_arguments
              on_decision emitter at route
            ≡ ok tt)
          ↔ (In route.method pass_through ⊎ IsHeld route)
    unfolding authorize_message
    authorize_message_iff route = elim (Bool-cases (contains pass_through route.method)) [
      | inl free ↦ (λ h. inl ((contains_iff pass_through route.method).0 free), λ k. rw free)
      | inr priced ↦ (
        λ h. inr (price_reached-eq-ok route (reach route) refl (rw priced at h)),
        λ k. elim k [
          | inl i ↦
              let t : true ≡ false = sym ((contains_iff pass_through route.method).1 i) ∙ priced in
              cc t
          | inr held ↦ rw priced (IsHeld-price_reached route held)
        ],
      )
    ]
