-- ===== src/Handler/Passage.antt =====
-- Which requests the SDK's handler is given, and with what context.
use mcp_authz.Base.{
  true, false, ◌≡◌, refl, sym, ap, subst, ◌↔◌, List, Option, none, Result, ok, err, >>=-eq-ok,
  >>_iff, refuse_if_iff, eq_iff, ◌==◌,
}
use mcp_authz.Policy.{Identity, Principal}
use mcp_authz.Routing.{Request}
use mcp_authz.Ladder.{Preflight}
use mcp_authz.Ladder.Gate.{DecisionEvent, Refused, allow, run_scoped_gate}
use mcp_authz.Ladder.Gate.Admits.{Admits, run_scoped_gate_iff}
use mcp_authz.Proxy.Serve.{Auth}
use mcp_authz.Handler.Authorized.{IsAuthorized, or_failed_lem, IsAuthorized-iff}
use mcp_authz.Handler.Covered.{IsPriced, Covers, not-eq_true, Covers-of_Permitted}
use mcp_authz.Handler.{
  Site, Unresolved, denied, broken, Served, verified, or_failed, authorize, gate_options, gated,
  told, resolved, context_for, enrich, serve,
}

module _ {Context : Type 0} (x : Site Context) where
  -- What a request has shown by the time that the SDK's handler is given it.
  pub record IsPassed (request : Request) (s : Served Context) : Type 0 where
    pub no_metadata : x.is_metadata request ≡ false
    pub no_health : (x.pathname request == x.health_path) ≡ false
    pub at_resource : x.pathname request ≡ x.resource_path
    pub auth : Auth
    pub verified : x.verify request ≡ ok auth
    pub identity : Identity
    pub identified : x.map_identity auth ≡ ok identity
    pub principal : Option Principal
    pub authorized : IsAuthorized x x.authorizer identity principal
    pub admitted : Admits x.reader (gate_options x request auth principal) s.preflight
    pub covered : Covers x.factory principal s.preflight
    pub resolved : context_for x identity principal ≡ ok s.context
    pub events : s.events ≡ told x principal allow none

  verified_lem : (o : Result _ Auth) (auth : Auth) → verified x o ≡ ok auth → o ≡ ok auth
  verified_lem (ok a) auth e = cc
  verified_lem (err status) auth e = cc

  resolved-eq-ok :
      (principal : Option Principal) (o : Result Unresolved Context) (context : Context)
      → resolved x principal o ≡ ok context
      → o ≡ ok context
  resolved-eq-ok principal (ok c) context e = cc
  resolved-eq-ok principal (err (denied reason message)) context e = cc
  resolved-eq-ok principal (err broken) context e = cc

  gated-eq-ok :
      (o : Result Refused (Option Preflight)) (preflight : Option Preflight)
      → gated x o ≡ ok preflight
      → o ≡ ok preflight
  gated-eq-ok (ok p) preflight e = cc
  gated-eq-ok (err r) preflight e = cc

  -- Where the factory says what its capabilities cost, the handler of the SDK is given a request exactly when it is no
  -- request for metadata or health and asks for the server's own path, its token is accepted and stands for an
  -- identity, a principal that holds something is made of it (unless nobody is asked), the gate lets it through, and a
  -- context is resolved. If it reads a resource, the principal has the permission of every registration that covers
  -- its URI. The decision to let the caller in is then all that the sink has been told.
  pub serve_iff :
      (request : Request) (s : Served Context)
      → IsPriced x.factory
      → (serve x request ≡ ok s) ↔ IsPassed request s
  unfolding serve authorize enrich gate_options
  serve_iff request s priced = (
    λ e.
        let (no_metadata, e1) = (>>_iff _ _ _).0 e in
        let (no_health, e2) = (>>_iff _ _ _).0 e1 in
        let (at_resource, e3) = (>>_iff _ _ _).0 e2 in
        let (auth, has_token, e4) = >>=-eq-ok (verified x (x.verify request)) _ e3 in
        let (identity, identified, e5) = >>=-eq-ok (or_failed x (x.map_identity auth)) _ e4 in
        let (principal, authorizes, e6) = >>=-eq-ok (authorize x identity) _ e5 in
        let (preflight, passes, e7) =
          >>=-eq-ok (gated x (run_scoped_gate x.reader (gate_options x request auth principal))) _
            e6 in
        let (context, resolves, e8) = >>=-eq-ok (enrich x identity principal) _ e7 in
        let these : record {
          context = context;
          preflight = preflight;
          events = told x principal allow none;
        }
            ≡ s =
          cc in
        let admitted =
          (run_scoped_gate_iff x.reader (gate_options x request auth principal) preflight).0
            (gated-eq-ok _ _ passes) in
        subst (IsPassed request) these (record {
          no_metadata = (refuse_if_iff _ _).0 no_metadata;
          no_health = (refuse_if_iff _ _).0 no_health;
          at_resource = (eq_iff _ _).0 (not-eq_true _ ((refuse_if_iff _ _).0 at_resource));
          auth = auth;
          verified = verified_lem _ _ has_token;
          identity = identity;
          identified = or_failed_lem x _ _ identified;
          principal = principal;
          authorized = (IsAuthorized-iff x x.authorizer identity principal).0 authorizes;
          admitted = admitted;
          covered =
              Covers-of_Permitted x x.factory principal preflight refl priced admitted.permitted;
          resolved = resolved-eq-ok _ _ _ resolves;
          events = refl;
        }),
    λ h.
        let at : (x.pathname request == x.resource_path) ≡ true = (eq_iff _ _).1 h.at_resource in
        let authorizes : authorize x h.identity ≡ ok h.principal =
          (IsAuthorized-iff x x.authorizer h.identity h.principal).1 h.authorized in
        let passes =
          (run_scoped_gate_iff x.reader (gate_options x request h.auth h.principal) s.preflight).1
            h.admitted in
        rw
          (h.no_metadata, h.no_health, at, h.verified, h.identified, authorizes, passes, h.resolved)
          (ap (λ (events : List DecisionEvent). ok (record s { events = events })) (sym h.events)),
  )
