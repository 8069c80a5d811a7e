-- ===== src/Wrap/Client.antt =====
-- wrap.ts: a line of the client's: what is refused, answered, held back or handed to the server.
pub mod Calm
pub mod Waiting
use mcp_authz.Base.{
  ℕ, ◌+◌, Bool, true, false, not, ◌&&◌, ◌||◌, String, List, [], ◌∷◌, ◌++◌, Option, none, some,
  filter, contains, lookup, strip_prefix, is_some, is_empty, or_else, if◌then◌else◌, ◌==◌, ◌^^◌,
  decimal,
}
use mcp_authz.Json.{
  Json, undefined, null, num, str, obj, raw, Fields, end, field, of_entries, record?, own,
}
use mcp_authz.Scopes.{trim}
use mcp_authz.StrictJson.{has_duplicate_key, holds_inexact_number}
use mcp_authz.Screen.{check_arguments, members, truthy}
use mcp_authz.Wrap.{
  Definition, Options, Outside, Held, State, Act, forwarded, requested, sent, text_of, is_undefined,
  is_truthy, or_null, add_id, put_call, visible,
}

-- The JSON-RPC answer that refuses a request.
pub error_reply : Json → String → String → Act
error_reply id code message = sent (
    text_of (
      obj (
        field "jsonrpc" (str "2.0") (
          field "id" id (
            field "error" (obj (field "code" (num code) (field "message" (str message) end)))
              end)))))

unfoldable pub is_method : List (String × Json) → String → Bool
is_method message method = elim (own message "method") [ str s ↦ s == method | _ ↦ false ]

-- `message.params`, as what its fields are read of.
abbrev pub params_of : List (String × Json) → List (String × Json)
params_of message = members (own message "params")

-- `message.params?.name`, where it is a text.
unfoldable pub called_name : List (String × Json) → Option String
called_name message = elim (own (params_of message) "name") [ str s ↦ some s | _ ↦ none ]

abbrev with_field : String → Json → Fields → Fields
with_field key value rest = if is_truthy value then field key value rest else rest

-- `requestList`
unfoldable pub request_list : State → Json → Json → State × List Act
request_list s meta cursor =
    let id = "mcp-authz-wrap/verify/" ^^ decimal (s.verifications + 1) in
    (
      record s { verify_meta = meta; verifying = some id; verifications = s.verifications + 1 },
      requested (
            obj (
              field "jsonrpc" (str "2.0") (
                field "id" (str id) (
                  field "method" (str "tools/list") (
                    field "params" (obj (with_field "cursor" cursor (with_field "_meta" meta end)))
                      end)))))
          ∷ [],
    )

-- The protocol fields of a request, which `wrap`'s own listing carries too.
abbrev protocol_fields : List (String × Json) → List (String × Json)
protocol_fields message =
    filter (λ e. is_some (strip_prefix "io.modelcontextprotocol/" e.0))
      (members (own (params_of message) "_meta"))

abbrev meta_of : List (String × Json) → Json
meta_of [] = undefined
meta_of (e ∷ rest) = obj (of_entries (e ∷ rest))

abbrev reply_id : Json → Json
reply_id (str s) = str s
reply_id (num t) = num t
reply_id id = if holds_inexact_number id then id else null

module _ (outside : Outside) (options : Options) where
  abbrev pub approved_of : String → Option Definition
  approved_of name = elim options.pinned [ none ↦ none | some pinned ↦ lookup pinned name ]

  -- `approved && checkArguments(name, approved, arguments)`
  unfoldable pub wrong_arguments : String → List (String × Json) → Option String
  wrong_arguments name message = elim (approved_of name) [
    | none ↦ none
    | some approved ↦
        check_arguments outside.validate name approved (own (params_of message) "arguments")
  ]

  abbrev track : List (Json × String) → Json → String → List (Json × String)
  track calls id name = if is_undefined id then calls else put_call calls id name

  -- `forward`
  unfoldable pub forward : State → String → List (String × Json) → String → State × List Act
  forward s line message name =
      let wrong = wrong_arguments name message in
      if truthy wrong
      then (
        s,
        error_reply (or_null (own message "id")) "-32602" ("Invalid params: " ^^ or_else wrong "")
            ∷ [],
      )
      else (record s { calls = track s.calls (own message "id") name }, forwarded line message ∷ [])

  abbrev blocked : String → Option String → String
  blocked name none = "Tool \"" ^^ name ^^ "\" is blocked by mcp-authz wrap"
  blocked name (some reason) = "Tool \"" ^^ name ^^ "\" is blocked by mcp-authz wrap: " ^^ reason

  -- Whether a held call may go on once the server has been asked, without a `failure`.
  unfoldable pub is_cleared : State → Option String → String → Bool
  is_cleared s failure name =
      not (is_some failure) && (visible options s name && contains s.verified name)

  abbrev why_held : State → Option String → String → String
  why_held s (some failure) name = failure
  why_held s none name =
      or_else (lookup s.changed name)
        "the server did not list it, so its definition could not be checked"

  -- What becomes of one held call.
  unfoldable pub release_one : State → Option String → Held → State × List Act
  release_one s failure call =
      if is_cleared s failure call.name then forward s call.line call.message call.name else (
        s,
        error_reply (or_null (own call.message "id")) "-32602"
              (blocked call.name (some (why_held s failure call.name)))
            ∷ [],
      )

  unfoldable pub release_all : State → Option String → List Held → State × List Act
  release_all s failure [] = (s, [])
  release_all s failure (call ∷ calls) =
      let (now, acts) = release_one s failure call in
      let (last, more) = release_all now failure calls in (last, acts ++ more)

  -- `release`
  unfoldable pub release : State → Option String → State × List Act
  release s failure = release_all (record s { verifying = none; held = [] }) failure s.held

  -- The ids of the requests whose answers `wrap` changes.
  unfoldable pub noted : State → List (String × Json) → State
  noted s message =
      let id = own message "id" in
      let there = not (is_undefined id) in
      let discovers = is_method message "initialize" || is_method message "server/discover" in
      record s {
        listing =
            if is_method message "tools/list" && there then add_id s.listing id else s.listing;
        discovering = if discovers && there then add_id s.discovering id else s.discovering;
      }

  -- A call that cannot go on before its tool has been checked.
  unfoldable pub hold : State → String → List (String × Json) → String → State × List Act
  hold s line message name =
      let call : Held = record { line = line; message = message; name = name } in
      let waiting = record s { held = s.held ++ call ∷ [] } in
      if is_some s.verifying
      then (waiting, [])
      else request_list waiting (meta_of (protocol_fields message)) undefined

  -- A call of a tool that is named.
  unfoldable pub call_tool : State → String → List (String × Json) → String → State × List Act
  call_tool s line message name =
      if not (visible options s name)
      then (
        s,
        error_reply (or_null (own message "id")) "-32602" (blocked name (lookup s.changed name))
            ∷ [],
      )
      else if is_some options.pinned && not (contains s.verified name)
      then hold s line message name
      else forward s line message name

  abbrev call_named : State → String → List (String × Json) → Option String → State × List Act
  call_named s line message none =
      (s, error_reply (or_null (own message "id")) "-32602" "tools/call needs a tool name" ∷ [])
  call_named s line message (some name) = call_tool s line message name

  -- A message that is read and may go on.
  unfoldable pub pass_on : State → String → List (String × Json) → State × List Act
  pass_on s line message =
      if is_method message "tools/call"
      then call_named s line message (called_name message)
      else (s, forwarded line message ∷ [])

  abbrev refuse : State → Json → String → String → State × List Act
  refuse s id code reason = (s, error_reply id code reason ∷ [])

  abbrev read : State → String → List (String × Json) → State × List Act
  read s line message =
      if has_duplicate_key line
      then refuse s (reply_id (own message "id")) "-32600"
          "Invalid request: mcp-authz wrap refuses a message that repeats a key"
      else if not (is_undefined (own message "method")) && holds_inexact_number (own message "id")
      then refuse s (reply_id (own message "id")) "-32600"
          "Invalid request: mcp-authz wrap cannot track an id it cannot hold exactly"
      else pass_on (noted s message) line message

  abbrev parsed : State → String → Option Json → State × List Act
  parsed s line none =
      refuse s null "-32700" "Parse error: mcp-authz wrap forwards only messages it can read"
  parsed s line (some value) = elim (record? value) [
    | none ↦
        refuse s null "-32600"
          "Invalid request: mcp-authz wrap forwards single JSON-RPC messages, not batches"
    | some message ↦ read s line message
  ]

  -- The handler of a line of the client's.
  unfoldable pub client_line : State → String → State × List Act
  client_line s line =
      if s.stopping || trim line == "" then (s, []) else parsed s line (outside.parse_checked line)
