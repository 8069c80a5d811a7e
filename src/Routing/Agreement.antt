-- ===== src/Routing/Agreement.antt =====
-- A trusted route says what the headers and the body both say.
use mcp_authz.Base.{
  Bool, true, false, String, ◌≡◌, refl, ap, ◌∙◌, inl, inr, ◌≢◌, arith, Option, none, some,
  Bool-cases, eq_iff,
}
use mcp_authz.Json.{Json}
use mcp_authz.Scopes.{decode_mcp_name_header}
use mcp_authz.Routing.{
  Inbound, Outcome, Request, Route, trusted, untrusted, rejected, legacy, modern, mismatch,
  name_source, name_at, named_by, check_decoded, check_name, check_source, check_method, name_from,
  check_outcome, is_post, classify_scoped_request,
}

-- The `Mcp-Name` header decodes to the name.
abbrev pub HeaderNames : Option String → String → Type 0
HeaderNames header name =
    (raw_name : String) × (header ≡ some raw_name) × (decode_mcp_name_header raw_name ≡ some name)

module _ (body : Json) (method : String) where
  abbrev named : Option String → Route
  named name = record { body = body; method = method; name = name }

  check_decoded-trusted :
      (source raw_name : String) (decoded : Option String) (name : String) (route : Route)
      → check_decoded body method source raw_name decoded (some name) ≡ trusted route
      → (route ≡ named (some name)) × (decoded ≡ some name)
  unfolding check_decoded mismatch
  check_decoded-trusted source raw_name none name route h = cc
  check_decoded-trusted source raw_name (some decoded) name route h =
      ground (arith, eq_iff decoded name)

  check_name-trusted :
      (source : String) (header body_name : Option String) (route : Route)
      → check_name body method source header body_name ≡ trusted route
      → (route ≡ named body_name)
        × ((name : String) → body_name ≡ some name → HeaderNames header name)
  unfolding check_name mismatch
  check_name-trusted source none none route h = (ground arith, λ name e. cc)
  check_name-trusted source none (some n) route h = cc
  check_name-trusted source (some raw_name) none route h =
      (unnamed (decode_mcp_name_header raw_name) h, λ name e. cc)
    where
      unnamed :
          (decoded : Option String)
          → check_decoded body method source raw_name decoded none ≡ trusted route
          → route ≡ named none
      unnamed none h = unfold check_decoded mismatch in cc h
      unnamed (some d) h = unfold check_decoded in ground arith
  check_name-trusted source (some raw_name) (some n) route h =
      let (same, decoded) = check_decoded-trusted source raw_name _ n route h in
      (same, λ name e. let k : n ≡ name = ground arith in (raw_name, refl, decoded ∙ ap some k))

  check_source-trusted :
      (params : Json) (header source : Option String) (route : Route)
      → check_source body method params header source ≡ trusted route
      → (route ≡ named (name_from params source))
        × ((name : String) → name_from params source ≡ some name → HeaderNames header name)
  check_source-trusted params header none route h = (ground arith, λ name e. cc)
  check_source-trusted params header (some source) route h =
      check_name-trusted source header (name_at params source) route h

  check_method-trusted :
      (params : Json) (method_header header : Option String) (route : Route)
      → check_method body method params method_header header ≡ trusted route
      → (route ≡ named (named_by method params))
        × (method_header ≢ none)
        × ((name : String) → named_by method params ≡ some name → HeaderNames header name)
  unfolding check_method mismatch
  check_method-trusted params none header route h = cc
  check_method-trusted params (some m) header route h =
      let (same, names) = check_source-trusted params header (name_source method) route h in
      (same, λ e. cc, names)

-- The route is what the SDK's message says, and a name that it has is the header's too.
pub record Agrees (req : Request) (body : Json) (route : Route) (o : Outcome) : Type 0 where
  pub is_request : Bool
  pub params : Json
  pub message : o ≡ modern is_request route.method params
  pub whole : route.body ≡ body
  pub unnamed : is_request ≡ false → route.name ≡ none
  pub method_header : is_request ≡ true → req.mcp_method ≢ none
  pub names : is_request ≡ true → route.name ≡ named_by route.method params
  pub name_header : (name : String) → route.name ≡ some name → HeaderNames req.mcp_name name

check_outcome-trusted :
    (req : Request) (body : Json) (o : Outcome) (route : Route)
    → check_outcome req body o ≡ trusted route
    → Agrees req body route o
unfolding check_outcome
check_outcome-trusted req body (rejected status code message details) route h = cc
check_outcome-trusted req body legacy route h = cc
check_outcome-trusted req body (modern false method params) route h =
    let same : route ≡ named body method none = ground arith in
    rw same (record {
      is_request = false;
      params = params;
      message = refl;
      whole = refl;
      unnamed = λ e. refl;
      method_header = λ e. cc;
      names = λ e. cc;
      name_header = λ name e. cc;
    })
check_outcome-trusted req body (modern true method params) route h =
    let (same, present, header) =
      check_method-trusted body method params req.mcp_method req.mcp_name route h in
    rw same (record {
      is_request = true;
      params = params;
      message = refl;
      whole = refl;
      unnamed = λ e. cc;
      method_header = λ e. present;
      names = λ e. refl;
      name_header = header;
    })

module _ (classify : Inbound → Outcome) (req : Request) (body : Json) where
  -- What the SDK makes of the request.
  abbrev pub outcome : Outcome
  outcome = classify (record {
    http_method = req.method;
    protocol_version = req.protocol_version;
    mcp_method = req.mcp_method;
    mcp_name = req.mcp_name;
    body = body;
  })

  -- A route is trusted only for a POST that the SDK calls modern. Of a request it carries the message's
  -- method, with the Mcp-Method header present, and exactly the name that the message's parameters
  -- carry for that method; and a name that it carries is the one that the Mcp-Name header decodes to.
  -- Of a notification it carries no name.
  pub classify_scoped_request-trusted :
      (route : Route)
      → classify_scoped_request classify req body ≡ trusted route
      → (is_post req.method ≡ true) × Agrees req body route outcome
  unfolding classify_scoped_request
  classify_scoped_request-trusted route h = elim (Bool-cases (is_post req.method)) [
    | inr other ↦ absurd (cc (let k : untrusted ≡ trusted route = rw other at h in k))
    | inl post ↦ (post, check_outcome-trusted req body outcome route (rw post at h))
  ]
