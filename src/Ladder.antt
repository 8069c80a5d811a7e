-- ===== src/Ladder.antt =====
-- ladder.ts and decision.ts: the rungs both enforcement points share. What the code answers with is a
-- `Reply`; what it refuses comes with the events that the decision sink has been given. An error code n
-- stands for -n.
pub mod Tests
pub mod Gate
pub mod Reading
pub mod Prices
use mcp_authz.Base.{
  ℕ, Bool, true, false, not, ◌&&◌, ◌||◌, String, List, [], ◌∷◌, ◌++◌, Option, none, some, Result,
  ok, err, ◌>>=◌, ◌>>◌, refuse_if, is_some, or_else, or_option, head?, is_empty, filter, find,
  contains, dedup, lookup, ltb, if◌then◌else◌, ◌==◌, ◌^^◌, decimal,
}
use mcp_authz.Json.{Json}
use mcp_authz.Policy.{Principal, can}
use mcp_authz.Scopes.{ScopeMap, scopes_for_capability}
use mcp_authz.Routing.{
  RequestId, Request, Inbound, Outcome, Route, Rejection, ScopedRoute, trusted, untrusted, refused,
  is_post, request_id, classify_scoped_request, route_from_body,
}
use mcp_authz.StrictJson.{has_duplicate_key}
use mcp_authz.Upstream.{read_capped_body}

pub data Kind : Type 0 where
  tool prompt resource : Kind

-- `capabilityLabel`
unfoldable pub capability_label : Kind → String → String
capability_label Kind.tool name = name
capability_label Kind.prompt name = "prompt:" ^^ name
capability_label Kind.resource name = "resource:" ^^ name

-- The key of a resolver's map, whose tools have a prefix too.
unfoldable pub kind_key : Kind → String → String
kind_key Kind.tool name = "tool:" ^^ name
kind_key Kind.prompt name = "prompt:" ^^ name
kind_key Kind.resource name = "resource:" ^^ name

unfoldable pub kind_of : String → Option Kind
kind_of method =
    if method == "tools/call"
    then some Kind.tool
    else if method == "prompts/get"
    then some Kind.prompt
    else if method == "resources/read"
    then some Kind.resource
    else none

-- `permissions?.get(key)`
abbrev get_from : Option (List (String × String)) → String → Option String
get_from none key = none
get_from (some permissions) key = lookup permissions key

-- `resolver?.(kind, name)`
abbrev resolved : Option (Kind → String → Option String) → Kind → String → Option String
resolved none kind name = none
resolved (some resolver) kind name = resolver kind name

abbrev priced_as :
    Option (Kind → String → Option String)
    → Option (List (String × String))
    → Option Kind
    → String
    → Option String
priced_as resolver permissions none name = none
priced_as resolver permissions (some kind) name =
    or_option (resolved resolver kind name) (get_from permissions (kind_key kind name))

-- A name that is empty counts as none.
unfoldable pub named : Option String → Option String
named none = none
named (some name) = if name == "" then none else some name

abbrev for_name :
    Option (Kind → String → Option String)
    → Option (List (String × String))
    → String
    → Option String
    → Option String
for_name resolver permissions method none = none
for_name resolver permissions method (some name) =
    priced_as resolver permissions (kind_of method) name

-- `permissionForRoute`
unfoldable pub permission_for_route :
    Option (Kind → String → Option String) → Option (List (String × String)) → Route → Option String
permission_for_route resolver permissions route =
    for_name resolver permissions route.method (named route.name)

-- An entry of the `ResourceIndex`.
pub record Entry : Type 0 where
  pub label : String
  pub permission : String
  pub matches : String → Bool

abbrev permission_of : Option Entry → Option String
permission_of none = none
permission_of (some entry) = some entry.permission

-- The first of the covering entries that the caller fails, or the first at all.
pub first_failing : (String → Bool) → List Entry → Option String
first_failing allowed covering =
    permission_of
      (or_option (find (λ entry. not (allowed entry.permission)) covering) (head? covering))

-- The name is that of a tool or a prompt, or the URI of a resource.
abbrev in_flat_map :
    List (String × String) → List Entry → (String → Bool) → String → Option String → Option String
in_flat_map permissions resources allowed method none = none
in_flat_map permissions resources allowed method (some name) =
    if method == "tools/call"
    then or_option (lookup permissions name) (lookup permissions ("tool:" ^^ name))
    else if method == "prompts/get"
    then lookup permissions ("prompt:" ^^ name)
    else if method == "resources/read"
    then first_failing allowed (filter (λ entry. entry.matches name) resources)
    else none

-- `permissionForFlatMap`
unfoldable pub permission_for_flat_map :
    List (String × String) → Route → List Entry → (String → Bool) → Option String
permission_for_flat_map permissions route resources allowed =
    in_flat_map permissions resources allowed route.method (named route.name)

pub data Reply : Type 0 where
  protocol_error :
      (status code : ℕ) (message : String) (details : Option Json) (id : RequestId) → Reply
  policy_denied : (message : String) → Reply
  scope_challenge : (scopes : List String) (resource_metadata_url : String) → Reply
  -- an answer that the SDK gives, by its status
  sdk_answer : (status : ℕ) → Reply
  -- what the host makes of an error that the code throws on
  unhandled : Reply

-- `ScopedPreflight`
pub record Preflight : Type 0 where
  pub body : Json
  pub route : Route
  pub headers_validated : Bool

-- What the code behind the rungs reads of a request: the media type, the text of the bytes, the JSON
-- value of the text, and what the SDK makes of a message.
pub record Reader : Type 0 where
  pub is_json : Option String → Bool
  pub decode : List ℕ → String
  pub parse : String → Option Json
  pub classify : Inbound → Outcome

-- `readCapped`: the length that the caller declares is refused before anything is read.
unfoldable pub read_capped : Reader → Request → ℕ → Result Reply String
read_capped reader req max_bytes =
    let too_large : Reply =
      protocol_error 413 32000 ("Request body exceeds the " ^^ decimal max_bytes ^^ " byte limit.")
        none RequestId.null_id in
    if ltb max_bytes req.content_length
    then err too_large
    else elim (read_capped_body req.body max_bytes) [
      | none ↦ err too_large
      | some bytes ↦ ok (reader.decode bytes)
    ]

-- `parseChecked` in its try block
unfoldable pub parse_body : Reader → String → Result Reply Json
parse_body reader text = elim (reader.parse text) [
  | none ↦ err (
      protocol_error 400 32700 "Parse error: the request body is not valid JSON" none
        RequestId.null_id)
  | some body ↦ ok body
]

abbrev from_body : Json → Option Route → Result Reply Preflight
from_body body none = err (
    protocol_error 400 32600 "Invalid Request: no JSON-RPC method to route on." none
      (request_id body))
from_body body (some route) = ok (record { body = body; route = route; headers_validated = false })

-- A route that the headers do not vouch for is read from the body alone.
unfoldable pub settle_route : Json → ScopedRoute → Result Reply Preflight
settle_route body (refused r) = err (protocol_error r.status r.code r.message r.details r.id)
settle_route body untrusted = from_body body (route_from_body body)
settle_route body (trusted route) =
    ok (record { body = body; route = route; headers_validated = true })

-- `preflightScopedRequest`
unfoldable pub preflight_scoped_request : Reader → Request → ℕ → Result Reply Preflight
preflight_scoped_request reader req max_bytes = do
  refuse_if (not (reader.is_json req.content_type)) (
      protocol_error 415 32000 "Per-capability scopes require an application/json body." none
        RequestId.null_id)
  text ← read_capped reader req max_bytes
  body ← parse_body reader text
  refuse_if (has_duplicate_key text) (
      protocol_error 400 32600
        "Invalid Request: the body repeats a key, which parsers resolve differently." none
        (request_id body))
  settle_route body (classify_scoped_request reader.classify req body)
