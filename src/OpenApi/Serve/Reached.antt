-- ===== src/OpenApi/Serve/Reached.antt =====
-- Which requests reach the API.
use mcp_authz.Base.{
  ℕ, Bool, true, false, String, ◌≡◌, refl, subst, ◌↔◌, inl, inr, List, [], ◌∷◌, Option, none, some,
  Result, ok, err, In, In-append, In-append_right, Bool-cases, is_empty, map, strip_prefix,
  if◌then◌else◌, ◌==◌,
}
use mcp_authz.Policy.{Principal}
use mcp_authz.Ladder.Gate.{Decision, DecisionEvent}
use mcp_authz.Proxy.Serve.{Auth, IdentityFailure, access_denied, identity_error}
use mcp_authz.OpenApi.{Operation, Price, can_pay}
use mcp_authz.OpenApi.Serve.{
  CallEvent, decided, reached, metadata, Run, Api, Call, told, attempted, audited, call_at, matched,
  price_at, routed, serve_route, enter, principal_of, entered, with_token, under_base, serve,
  without_slash, or_root,
}

abbrev pub Reaches : Run → Type 0
Reaches run = In reached run.acts

not_decided : (events : List DecisionEvent) → ¬ In reached (map decided events)
not_decided [] i = i
not_decided (e ∷ events) (inl same) = cc
not_decided (e ∷ events) (inr i) = not_decided events i

module _ (api : Api) (call : Call) where
  not_told :
      (p : Principal) (decision : Decision) (reason : Option String)
      → ¬ In reached (told api call p decision reason)
  not_told p decision reason = not_decided _

  -- The audit sink, where there is one, takes the record of the attempt.
  abbrev pub Takes : CallEvent → Option (CallEvent → Bool) → Type 0
  Takes event none = Unit {0}
  Takes event (some sink) = sink event ≡ true

  audited_iff :
      (p : Principal) (operation : Operation) (price : Price) (route : String)
      (sink : Option (CallEvent → Bool))
      → Reaches (audited api call p operation price route sink)
        ↔ Takes (attempted api call p operation price route) sink
  audited_iff p operation price route none =
      (λ i. tt, λ t. In-append_right reached (told api call p Decision.allow none) _ (inl refl))
  audited_iff p operation price route (some sink) =
      elim (Bool-cases (sink (attempted api call p operation price route))) [
        | inl taken ↦ rw taken (
          λ i. refl,
          λ t. In-append_right reached (told api call p Decision.allow none) _ (inr (inl refl)),
        )
        | inr lost ↦ rw lost (
          λ i. elim (In-append reached (told api call p Decision.allow none) _ i) [
            | inl j ↦ absurd (not_told p Decision.allow none j)
            | inr (inl same) ↦ cc
            | inr (inr never) ↦ absurd never
          ],
          λ t. cc,
        )
      ]

  -- The caller can pay the price, and the attempt is on record.
  abbrev pub MayPay : Principal → Operation → String → Price → Type 0
  MayPay p operation route price =
      (can_pay p price ≡ true) × Takes (attempted api call p operation price route) api.on_audit

  call_at_iff :
      (p : Principal) (operation : Operation) (price : Price) (route : String)
      → Reaches (call_at api call p operation price route) ↔ MayPay p operation route price
  unfolding call_at
  call_at_iff p operation price route = elim (Bool-cases (can_pay p price)) [
    | inl pays ↦
        let taken = audited_iff p operation price route api.on_audit in
        rw pays (λ i. (refl, taken.0 i), λ h. taken.1 h.1)
    | inr broke ↦ rw broke (λ i. absurd (not_told p Decision.deny _ i), λ h. cc h.0)
  ]

  -- The caller can pay the price of the first route that the request is matched by.
  abbrev pub MayCall : Principal → String → Type 0
  MayCall p route =
      (operation : Operation) × (matched api call route ≡ some operation)
      × MayPay p operation route (price_at api call operation)

  routed_iff :
      (p : Principal) (route : String) (o : Option Operation)
      → Reaches (routed api call p route o) ↔ (
          (operation : Operation) × (o ≡ some operation)
          × MayPay p operation route (price_at api call operation))
  routed_iff p route none = (λ i. absurd (not_told p Decision.deny _ i), λ h. cc h.1)
  routed_iff p route (some operation) =
      let pays = call_at_iff p operation (price_at api call operation) route in
      (
        λ i. (operation, refl, pays.0 i),
        λ (other, e, h).
            let same : other ≡ operation = cc in
            pays.1 (subst (λ (o : Operation). MayPay p o route (price_at api call o)) same h),
      )

  enter_iff :
      (p : Principal) (route : String)
      → Reaches (enter api call route p)
        ↔ ((is_empty p.permissions ≡ false) × ((route == api.spec_path) ≡ false) × MayCall p route)
  unfolding enter serve_route
  enter_iff p route = elim (Bool-cases (is_empty p.permissions)) [
    | inl nothing ↦ rw nothing (λ i. absurd (not_told p Decision.deny _ i), λ h. cc h.0)
    | inr holds ↦ rw holds (elim (Bool-cases (route == api.spec_path)) [
      | inl listed ↦ rw listed (λ i. absurd (not_told p Decision.allow none i), λ h. cc h.1)
      | inr other ↦
          let called = routed_iff p route (matched api call route) in
          rw other (λ i. (refl, refl, called.0 i), λ h. called.1 h.2)
    ])
  ]

  -- A principal that holds something asks for another route than the document's, and may call what it names.
  abbrev pub MayEnter : String → Principal → Type 0
  MayEnter route p =
      (is_empty p.permissions ≡ false) × ((route == api.spec_path) ≡ false) × MayCall p route

  entered_iff :
      (route : String) (o : Result IdentityFailure Principal)
      → Reaches (entered api call route o) ↔ ((p : Principal) × (o ≡ ok p) × MayEnter route p)
  entered_iff route (err (access_denied message)) = (λ i. absurd i, λ h. cc h.1)
  entered_iff route (err identity_error) = (λ i. absurd i, λ h. cc h.1)
  entered_iff route (ok p) =
      let may = enter_iff p route in
      (
        λ i. (p, refl, may.0 i),
        λ (other, e, h). let same : other ≡ p = cc in may.1 (subst (MayEnter route) same h),
      )

  -- The token is accepted, and stands for such a principal.
  abbrev pub MayPass : String → Auth → Type 0
  MayPass route auth = (p : Principal) × (principal_of api call auth ≡ ok p) × MayEnter route p

  with_token_iff :
      (route : String) (o : Result ℕ Auth)
      → Reaches (with_token api call route o) ↔ ((auth : Auth) × (o ≡ ok auth) × MayPass route auth)
  with_token_iff route (err status) = (λ i. absurd i, λ h. cc h.1)
  with_token_iff route (ok auth) =
      let may = entered_iff route (principal_of api call auth) in
      (
        λ i. (auth, refl, may.0 i),
        λ (other, e, h). let same : other ≡ auth = cc in may.1 (subst (MayPass route) same h),
      )

  under_base_iff :
      (o : Option String)
      → Reaches (under_base api call o) ↔ (
          (rest : String) × (o ≡ some rest)
          × ((auth : Auth) × (call.auth ≡ ok auth) × MayPass (or_root rest) auth))
  under_base_iff none = (λ i. absurd i, λ h. cc h.1)
  under_base_iff (some rest) =
      let may = with_token_iff (or_root rest) call.auth in
      (
        λ i. (rest, refl, may.0 i),
        λ (other, e, h).
            let same : other ≡ rest = cc in
            may.1 (
              subst
                (λ (r : String). (auth : Auth) × (call.auth ≡ ok auth) × MayPass (or_root r) auth)
                same h),
      )

  -- What a request has to get through.
  abbrev pub MayReach : Type 0
  MayReach =
      (call.is_metadata ≡ false)
      × ((rest : String) × (strip_prefix (without_slash api.server_path) call.pathname ≡ some rest)
          × ((auth : Auth) × (call.auth ≡ ok auth) × MayPass (or_root rest) auth))

  -- A request reaches the API exactly when it is no request for metadata, its path lies under the server's own, its
  -- token is accepted and stands for a principal that holds something, its route is not that of the document, the
  -- principal can pay the price of the first operation that the route is matched by (where it has none, by holding `*`),
  -- and the audit sink, where there is one, has taken the record of the attempt.
  pub serve-reached_iff : Reaches (serve api call) ↔ MayReach
  unfolding serve
  serve-reached_iff = branch call.is_metadata
    where
      branch :
          (b : Bool)
          → Reaches (
              if b
              then record { acts = []; answer = metadata }
              else under_base api call (strip_prefix (without_slash api.server_path) call.pathname))
            ↔ ((b ≡ false)
                × ((rest : String) × (strip_prefix (without_slash api.server_path) call.pathname
                      ≡ some rest)
                    × ((auth : Auth) × (call.auth ≡ ok auth) × MayPass (or_root rest) auth)))
      branch true = (λ i. absurd i, λ h. cc h.0)
      branch false =
          let may = under_base_iff (strip_prefix (without_slash api.server_path) call.pathname) in
          (λ i. (refl, may.0 i), λ h. may.1 h.1)
