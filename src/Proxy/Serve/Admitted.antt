-- ===== src/Proxy/Serve/Admitted.antt =====
-- What a request that is forwarded on the service credential has shown.
use mcp_authz.Base.{
  ℕ, ◌≤◌, Bool, true, false, not, String, ◌≡◌, refl, sym, ap, subst, ◌∙◌, ◌⊎◌, inl, inr, List,
  arith, none, some, Result, ok, err, >>=-eq-ok, >>_iff, refuse_if-eq-ok, In, is_empty, length,
  Bool-cases,
}
use mathlib.Core.Bool.{or-true}
use mcp_authz.Policy.{Identity, Principal, PolicyError}
use mcp_authz.Policy.Decide.{decide}
use mcp_authz.Routing.{Request, Route, trusted, is_post, classify_scoped_request}
use mcp_authz.StrictJson.{has_duplicate_key}
use mcp_authz.Upstream.Capped.{whole}
use mcp_authz.Ladder.{Preflight}
use mcp_authz.Ladder.Reading.{preflight_scoped_request-eq-ok, IsRouted}
use mcp_authz.Ladder.Gate.{
  Refused, DecisionEvent, run_scoped_gate, is_classified, scopes_asked, emit_decision, allow,
}
use mcp_authz.Ladder.Gate.Admits.{run_scoped_gate-strict}
use mcp_authz.Proxy.{pass_through}
use mcp_authz.Proxy.Passed.{IsHeld, authorize_message_iff}
use mcp_authz.Proxy.Serve.{
  Auth, IdentityFailure, access_denied, identity_error, Proxy, after, gate_options, require_modern,
  gate, verified, identified, decided, authorize, price, admit, is_scoped,
}

after-eq-ok {ℓ} :
    {A : Type ℓ} (events : List DecisionEvent) (r : Result Refused A) (a : A)
    → after events r ≡ ok a
    → r ≡ ok a
unfolding after
after-eq-ok events (ok b) a h = h
after-eq-ok events (err r) a h = cc

not-false : (b : Bool) → not b ≡ false → b ≡ true
not-false true h = refl
not-false false h = cc

module _ (x : Proxy) (req : Request) where
  -- What has been read of the request: the route is one that the headers vouch for, read of the whole body,
  -- which repeats no key, and the token has the scopes that the route asks for.
  pub record IsRead (auth : Auth) (principal : Principal) (route : Route) : Type 0 where
    pub preflight : Preflight
    pub routed : preflight.route ≡ route
    pub fits : length (whole req.body) ≤ x.max_request_bytes
    pub parsed : x.reader.parse (x.reader.decode (whole req.body)) ≡ some preflight.body
    pub single : has_duplicate_key (x.reader.decode (whole req.body)) ≡ false
    pub vouched : classify_scoped_request x.reader.classify req preflight.body ≡ trusted route
    pub has_scopes :
        (scope : String)
        → In scope (scopes_asked (gate_options x req auth principal) (some preflight))
        → In scope auth.scopes

  pub record IsAdmitted (principal : Principal) (route : Route) : Type 0 where
    pub posted : is_post req.method ≡ true
    pub auth : Auth
    pub identity : Identity
    pub is_verified : x.verify req ≡ ok auth
    pub is_identified : x.map_identity auth ≡ ok identity
    pub is_decided : decide x.lower x.policy identity ≡ ok principal
    pub holds_some : is_empty principal.permissions ≡ false
    pub is_read : IsRead auth principal route
    pub is_priced :
        In route.method pass_through
        ⊎ IsHeld principal x.permissions x.resources x.definitions x.changed x.check_arguments route

  verified-eq-ok : (r : Result ℕ Auth) (auth : Auth) → verified x r ≡ ok auth → r ≡ ok auth
  verified-eq-ok (ok a) auth h = ground arith
  verified-eq-ok (err status) auth h = cc

  decided-eq-ok : (r : Result PolicyError Principal) (p : Principal) → decided x r ≡ ok p → r ≡ ok p
  decided-eq-ok (ok a) p h = ground arith
  decided-eq-ok (err e) p h = cc

  identified-eq-ok :
      (r : Result IdentityFailure Identity) (i : Identity) → identified x r ≡ ok i → r ≡ ok i
  identified-eq-ok (ok a) i h = ground arith
  identified-eq-ok (err (access_denied m)) i h = cc
  identified-eq-ok (err identity_error) i h = cc

  is_classified-gate :
      (auth : Auth) (principal : Principal)
      → is_post req.method ≡ true
      → is_classified (gate_options x req auth principal) ≡ true
  unfolding is_classified gate_options
  is_classified-gate auth principal post = rw (post, or-true (is_scoped x x.capability_scopes))

  require_modern-eq-ok :
      (p : Preflight) (route : Route)
      → require_modern x (some p) ≡ ok route
      → (p.headers_validated ≡ true) × (p.route ≡ route)
  unfolding require_modern
  require_modern-eq-ok p route h = elim (Bool-cases p.headers_validated) [
    | inl t ↦ (t, ground arith)
    | inr f ↦ absurd (ground arith)
  ]

  gate-eq-ok :
      (auth : Auth) (principal : Principal) (route : Route)
      → is_post req.method ≡ true
      → gate x req auth principal ≡ ok route
      → IsRead auth principal route
  unfolding gate gate_options
  gate-eq-ok auth principal route post h =
      let o = gate_options x req auth principal in
      let (pre, run, last) = >>=-eq-ok (run_scoped_gate x.reader o) _ h in
      let (p, same, read, permitted, scopes) =
        run_scoped_gate-strict x.reader o pre (is_classified-gate auth principal post) (inr refl)
          run in
      let (json, fits, parsed, single, routed) =
        preflight_scoped_request-eq-ok x.reader req x.max_request_bytes p read in
      let (modern, at) = require_modern-eq-ok p route (ap (require_modern x) (sym same) ∙ last) in
      record {
        preflight = p;
        routed = at;
        fits = fits;
        parsed = parsed;
        single = single;
        vouched = vouches p modern routed ∙ ap trusted at;
        has_scopes = scopes;
      }
    where
      vouches :
          (p : Preflight)
          → p.headers_validated ≡ true
          → IsRouted x.reader.classify req p
          → classify_scoped_request x.reader.classify req p.body ≡ trusted p.route
      vouches p modern (inl k) = k.1
      vouches p modern (inr k) = absurd (let f : true ≡ false = sym modern ∙ k.0 in cc f)

  authorize-eq-ok :
      (auth : Auth) (principal : Principal)
      → authorize x auth ≡ ok principal
      → (identity : Identity) × (x.map_identity auth ≡ ok identity)
        × (decide x.lower x.policy identity ≡ ok principal)
        × (is_empty principal.permissions ≡ false)
  unfolding authorize
  authorize-eq-ok auth principal h =
      let (identity, a, rest) = >>=-eq-ok (identified x (x.map_identity auth)) _ h in
      let (p, b, rest) = >>=-eq-ok (decided x (decide x.lower x.policy identity)) _ rest in
      let (c, last) = refuse_if-eq-ok _ _ _ rest in
      let same : p ≡ principal = ground arith in
      (
        identity,
        identified-eq-ok _ identity a,
        decided-eq-ok _ p b ∙ ap ok same,
        ap (λ (q : Principal). is_empty q.permissions) (sym same) ∙ c,
      )

  price-eq-ok :
      (p : Principal) (route : Route)
      → price x p route ≡ ok tt
      → In route.method pass_through
        ⊎ IsHeld p x.permissions x.resources x.definitions x.changed x.check_arguments route
  unfolding price
  price-eq-ok p route h =
      (authorize_message_iff p x.permissions x.resources x.definitions x.changed x.check_arguments
          x.on_decision x.emitter x.at route).0
        h

  -- A request that the proxy forwards on its service credential is a POST with a valid token, whose
  -- identity the policy makes a principal that holds something. Its route is what the headers and the body
  -- agree on, read of all the bytes of a body within the limit that repeats no key; the token has every
  -- scope that the route asks for; and its method needs no permission, or every request that it reaches is
  -- one that the principal may make, unchanged behind its label and with the arguments approved.
  pub admit-IsAdmitted :
      (principal : Principal) (route : Route)
      → admit x req ≡ ok (principal, route)
      → IsAdmitted principal route
  unfolding admit
  admit-IsAdmitted principal route h =
      let (wrong, rest) = refuse_if-eq-ok _ _ _ h in
      let (auth, a, rest) = >>=-eq-ok (verified x (x.verify req)) _ rest in
      let (p, b, rest) = >>=-eq-ok (authorize x auth) _ rest in
      let (r, c, rest) = >>=-eq-ok (after (entered p) (gate x req auth p)) _ rest in
      let (d, last) =
        (>>_iff (after (entered p) (price x p r)) (ok (p, r)) (principal, route)).0 rest in
      let who : p ≡ principal = ground arith in
      let what : r ≡ route = ground arith in
      subst (λ q. IsAdmitted q route) who
        (subst (λ s. IsAdmitted p s) what (shown auth p r (not-false _ wrong) a b c d))
    where
      entered : Principal → List DecisionEvent
      entered p = emit_decision x.on_decision (some p) allow none x.emitter x.at

      shown :
          (auth : Auth) (p : Principal) (r : Route)
          → is_post req.method ≡ true
          → verified x (x.verify req) ≡ ok auth
          → authorize x auth ≡ ok p
          → after (entered p) (gate x req auth p) ≡ ok r
          → after (entered p) (price x p r) ≡ ok tt
          → IsAdmitted p r
      shown auth p r post a b c d =
          let (identity, m, e, f) = authorize-eq-ok auth p b in
          record {
            posted = post;
            auth = auth;
            identity = identity;
            is_verified = verified-eq-ok _ auth a;
            is_identified = m;
            is_decided = e;
            holds_some = f;
            is_read = gate-eq-ok auth p r post (after-eq-ok _ _ r c);
            is_priced = price-eq-ok p r (after-eq-ok _ _ tt d);
          }
