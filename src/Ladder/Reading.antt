-- ===== src/Ladder/Reading.antt =====
-- What a request that has been read for its capability has shown.
use mcp_authz.Base.{
  ℕ, ◌≤◌, true, false, String, ◌≡◌, refl, sym, ap, subst, ◌∙◌, ◌⊎◌, inl, inr, arith, Option, none,
  some, ok, >>=-eq-ok, refuse_if-eq-ok, Bool-cases, length, ltb,
}
use mcp_authz.Json.{Json}
use mcp_authz.Routing.{
  Request, Inbound, Outcome, Route, ScopedRoute, trusted, untrusted, refused,
  classify_scoped_request, route_from_body,
}
use mcp_authz.StrictJson.{has_duplicate_key}
use mcp_authz.Upstream.Capped.{whole, read_capped_body_iff}
use mcp_authz.Ladder.{
  Preflight, Reader, read_capped, parse_body, settle_route, preflight_scoped_request,
}

-- The bytes fit, and the text is that of all of them.
read_capped-eq-ok :
    (reader : Reader) (req : Request) (limit : ℕ) (text : String)
    → read_capped reader req limit ≡ ok text
    → (length (whole req.body) ≤ limit) × (reader.decode (whole req.body) ≡ text)
unfolding read_capped
read_capped-eq-ok reader req limit text h = elim (Bool-cases (ltb limit req.content_length)) [
  | inl declared ↦ ground arith
  | inr short ↦ elim (Bool-cases (ltb limit (length (whole req.body)))) [
    | inl over ↦ let e = (read_capped_body_iff req.body limit).1 (ground arith) in ground arith
    | inr under ↦
        let fits : length (whole req.body) ≤ limit = ground arith in
        let e = (read_capped_body_iff req.body limit).0 fits in (fits, ground arith)
  ]
]

parse_body-eq-ok :
    (reader : Reader) (text : String) (body : Json)
    → parse_body reader text ≡ ok body
    → reader.parse text ≡ some body
unfolding parse_body
parse_body-eq-ok reader text body h = ground arith

module _ (classify : Inbound → Outcome) (req : Request) where
  -- The route is one that the headers vouch for, or one that the body alone gives where the SDK leaves the
  -- message to an older protocol.
  abbrev pub IsRouted : Preflight → Type 0
  IsRouted p =
      ((p.headers_validated ≡ true)
        × (classify_scoped_request classify req p.body ≡ trusted p.route))
      ⊎ ((p.headers_validated ≡ false)
          × (classify_scoped_request classify req p.body ≡ untrusted)
          × (route_from_body p.body ≡ some p.route))

  settle_route-eq-ok :
      (body : Json) (p : Preflight)
      → settle_route body (classify_scoped_request classify req body) ≡ ok p
      → (p.body ≡ body) × IsRouted p
  unfolding settle_route
  settle_route-eq-ok body p h =
      routed (classify_scoped_request classify req body) refl (route_from_body body) refl
    where
      routed :
          (scoped : ScopedRoute)
          → classify_scoped_request classify req body ≡ scoped
          → (derived : Option Route) → route_from_body body ≡ derived
          → (p.body ≡ body) × IsRouted p
      routed (refused r) e derived d = absurd (ground arith)
      routed (trusted route) e derived d =
          let same : record { body = body; route = route; headers_validated = true } ≡ p =
            ground arith in
          subst (λ q. (q.body ≡ body) × IsRouted q) same (refl, inl (refl, e))
      routed untrusted e none d = absurd (ground arith)
      routed untrusted e (some route) d =
          let same : record { body = body; route = route; headers_validated = false } ≡ p =
            ground arith in
          subst (λ q. (q.body ≡ body) × IsRouted q) same (refl, inr (refl, e, d))

-- A request that is read is a JSON body within the limit, all of it, which no key repeats in; and its
-- route is one that the headers vouch for, or the body's own where the SDK calls it legacy.
pub preflight_scoped_request-eq-ok :
    (reader : Reader) (req : Request) (limit : ℕ) (p : Preflight)
    → preflight_scoped_request reader req limit ≡ ok p
    → (reader.is_json req.content_type ≡ true)
      × (length (whole req.body) ≤ limit)
      × (reader.parse (reader.decode (whole req.body)) ≡ some p.body)
      × (has_duplicate_key (reader.decode (whole req.body)) ≡ false)
      × IsRouted reader.classify req p
unfolding preflight_scoped_request
preflight_scoped_request-eq-ok reader req limit p h =
    let (json, rest) = refuse_if-eq-ok _ _ _ h in
    let (text, a, rest) = >>=-eq-ok (read_capped reader req limit) _ rest in
    let (fits, decoded) = read_capped-eq-ok reader req limit text a in
    let (body, b, rest) = >>=-eq-ok (parse_body reader text) _ rest in
    let (single, last) = refuse_if-eq-ok _ _ _ rest in
    let (same, routed) = settle_route-eq-ok reader.classify req body p last in
    let parsed = parse_body-eq-ok reader text body b in
    (
      ground arith,
      fits,
      ap reader.parse decoded ∙ parsed ∙ ap some (sym same),
      ap has_duplicate_key decoded ∙ single,
      routed,
    )
