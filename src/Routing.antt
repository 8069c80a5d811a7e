-- ===== src/Routing.antt =====
-- routing.ts: which capability a request names, read off its body and checked against its headers.
-- `classify` stands for the SDK's `classifyInboundRequest`. An error code n stands for -n, since every
-- JSON-RPC code here is negative.
pub mod Tests
pub mod Agreement
use Prim.Native.Char.{code}
use Prim.Native.String
use mcp_authz.Base.{
  ℕ, ◌-◌, Bool, true, false, not, ◌&&◌, ◌||◌, String, List, [], ◌∷◌, Option, none, some, nat_eq,
  leb, if◌then◌else◌, ◌==◌, ◌^^◌,
}
use mcp_authz.Json.{Json, str, num, obj, field, end, record?, own}
use mcp_authz.Scopes.{trim, decode_mcp_name_header}

-- The id of a JSON-RPC message: a text, a number by its text, or null.
pub data RequestId : Type 0 where
  null_id : RequestId
  text_id number_id : String → RequestId

-- A request as this code reads it.
pub record Request : Type 0 where
  pub method : String
  pub protocol_version : Option String
  pub mcp_method : Option String
  pub mcp_name : Option String
  pub content_type : Option String
  -- `Number` of the Content-Length header, where that is finite
  pub content_length : ℕ
  -- the bytes of the body, as the stream hands them over
  pub body : List (List ℕ)

-- What the SDK is told about a request.
pub record Inbound : Type 0 where
  pub http_method : String
  pub protocol_version : Option String
  pub mcp_method : Option String
  pub mcp_name : Option String
  pub body : Json

pub data Outcome : Type 0 where
  rejected : (status code : ℕ) (message : String) (details : Option Json) → Outcome
  legacy : Outcome
  modern : (is_request : Bool) (method : String) (params : Json) → Outcome

-- `TrustedMcpRoute`
pub record Route : Type 0 where
  pub body : Json
  pub method : String
  pub name : Option String

pub record Rejection : Type 0 where
  pub status : ℕ
  pub code : ℕ
  pub message : String
  pub details : Option Json
  pub id : RequestId

pub data ScopedRoute : Type 0 where
  trusted : Route → ScopedRoute
  untrusted : ScopedRoute
  refused : Rejection → ScopedRoute

-- `method.toUpperCase() === 'POST'`, over the letters that a method is made of.
same_upper : String → String → Bool
same_upper String.[] String.[] = true
same_upper (String.◌∷◌ c s) (String.◌∷◌ d t) =
    (nat_eq (code c) (code d)
      || (leb b'a' (code c) && leb (code c) b'z' && nat_eq (code c - 32) (code d)))
    && same_upper s t
same_upper _ _ = false

unfoldable pub is_post : String → Bool
unfolding same_upper
is_post method = same_upper method "POST"

-- `NAME_SOURCE`
unfoldable pub name_source : String → Option String
name_source method =
    if method == "tools/call" || method == "prompts/get"
    then some "name"
    else if method == "resources/read"
    then some "uri"
    else none

abbrev id_of : Json → RequestId
id_of (str s) = RequestId.text_id s
id_of (num t) = RequestId.number_id t
id_of _ = RequestId.null_id

abbrev id_in : Option (List (String × Json)) → RequestId
id_in none = RequestId.null_id
id_in (some fs) = id_of (own fs "id")

unfoldable pub request_id : Json → RequestId
unfolding own record?
request_id body = id_in (record? body)

abbrev pub text_in : Json → Option String
text_in (str s) = some s
text_in _ = none

abbrev text_at : Option (List (String × Json)) → String → Option String
text_at none key = none
text_at (some fs) key = text_in (own fs key)

-- `isRecord(params) && typeof params[source] === 'string'`
unfoldable pub name_at : Json → String → Option String
unfolding own record?
name_at params source = text_at (record? params) source

abbrev pub name_from : Json → Option String → Option String
name_from params none = none
name_from params (some source) = name_at params source

-- The name that a message's parameters carry for its method, if the method names something.
abbrev pub named_by : String → Json → Option String
named_by method params = name_from params (name_source method)

-- `mismatch`
pub mismatch : String → String → Json → ScopedRoute
mismatch header_value description body = ScopedRoute.refused (record {
  status = 400;
  code = 32020;
  message = "Bad Request: the request headers and body disagree: " ^^ description;
  details = some (
      obj (
        field "mismatch"
          (obj (field "header" (str header_value) (field "body" (str description) end))) end));
  id = request_id body;
})

unfoldable pub carries : String → String → String
carries source name = "the body carries params." ^^ source ^^ "=\"" ^^ name ^^ "\""

-- The last rung: the name that the header decodes to against the name in the body.
unfoldable pub check_decoded :
    Json → String → String → String → Option String → Option String → ScopedRoute
check_decoded body method source raw_name none body_name =
    mismatch (trim raw_name) "the Mcp-Name header carries an invalid Base64 sentinel value" body
check_decoded body method source raw_name (some decoded) none =
    ScopedRoute.trusted (record { body = body; method = method; name = none })
check_decoded body method source raw_name (some decoded) (some name) =
    if decoded == name
    then ScopedRoute.trusted (record { body = body; method = method; name = some name })
    else mismatch (trim raw_name)
        (carries source name ^^ " but the Mcp-Name header names \"" ^^ decoded ^^ "\"") body

unfoldable pub check_name : Json → String → String → Option String → Option String → ScopedRoute
check_name body method source none none =
    ScopedRoute.trusted (record { body = body; method = method; name = none })
check_name body method source none (some name) =
    mismatch "(missing)" (carries source name ^^ " but the required Mcp-Name header is absent") body
check_name body method source (some raw_name) body_name =
    check_decoded body method source raw_name (decode_mcp_name_header raw_name) body_name

abbrev check_source : Json → String → Json → Option String → Option String → ScopedRoute
check_source body method params raw_name none =
    ScopedRoute.trusted (record { body = body; method = method; name = none })
check_source body method params raw_name (some source) =
    check_name body method source raw_name (name_at params source)

unfoldable pub check_method : Json → String → Json → Option String → Option String → ScopedRoute
check_method body method params none raw_name =
    mismatch "(missing)"
      ("the body names method " ^^ method ^^ " but the required Mcp-Method header is absent") body
check_method body method params (some header) raw_name =
    check_source body method params raw_name (name_source method)

unfoldable pub check_outcome : Request → Json → Outcome → ScopedRoute
check_outcome req body (Outcome.rejected status code message details) =
    ScopedRoute.refused (record {
      status = status;
      code = code;
      message = message;
      details = details;
      id = request_id body;
    })
check_outcome req body Outcome.legacy = ScopedRoute.untrusted
check_outcome req body (Outcome.modern false method params) =
    ScopedRoute.trusted (record { body = body; method = method; name = none })
check_outcome req body (Outcome.modern true method params) =
    check_method body method params req.mcp_method req.mcp_name

-- `classifyScopedRequest`
unfoldable pub classify_scoped_request : (Inbound → Outcome) → Request → Json → ScopedRoute
classify_scoped_request classify req body =
    if is_post req.method
    then check_outcome req body (
        classify (record {
          http_method = req.method;
          protocol_version = req.protocol_version;
          mcp_method = req.mcp_method;
          mcp_name = req.mcp_name;
          body = body;
        }))
    else ScopedRoute.untrusted

abbrev params_in : Option (List (String × Json)) → Json
params_in none = Json.undefined
params_in (some fs) = own fs "params"

abbrev route_named : Json → Option String → Option Route
route_named body none = none
route_named body (some method) =
    some
      (record { body = body; method = method; name = named_by method (params_in (record? body)) })

-- `routeFromBody`
pub route_from_body : Json → Option Route
route_from_body body = route_named body (name_at body "method")
