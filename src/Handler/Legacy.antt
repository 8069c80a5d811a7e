-- ===== src/Handler/Legacy.antt =====
-- handler.ts: `explainLegacyRefusal`. `parse` stands for `JSON.parse`; nothing is answered where the response stays as
-- it is.
use mcp_authz.Base.{
  Bool, ◌||◌, String, List, Option, none, some, and_then, is_some, put, strip_prefix, if◌then◌else◌,
  ◌^^◌,
}
use mcp_authz.Json.{Json, str, obj, of_entries, own, string?}
use mcp_authz.Screen.{members}

-- `text.includes(part)`
unfoldable pub includes : String → String → Bool
includes part String.[] = is_some (strip_prefix part "")
includes part (String.◌∷◌ c s) = is_some (strip_prefix part (String.◌∷◌ c s)) || includes part s

abbrev pub advice : String
advice =
    ". No MCP client currently ships without the initialize handshake, so this refuses every client available today. Set legacy: 'stateless' to serve them."

-- `payload.error.message += …`, where it is a text.
unfoldable pub with_advice : List (String × Json) → Option Json
with_advice payload = and_then (string? (own (members (own payload "error")) "message")) (λ message.
    some (
      obj (
        of_entries (
          put payload "error" (
            obj (
              of_entries
                (put (members (own payload "error")) "message" (str (message ^^ advice)))))))))

-- The payload of the answer that takes the response's place, under its status and headers.
unfoldable pub explain_legacy_refusal :
    (String → Option Json) → (is_ok : Bool) → (body : String) → Option Json
explain_legacy_refusal parse is_ok body =
    if is_ok
    then none
    else if includes "Unsupported protocol version" body
    then and_then (parse body) (λ payload. with_advice (members payload))
    else none
