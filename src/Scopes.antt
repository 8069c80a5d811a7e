-- ===== src/Scopes.antt =====
-- scopes.ts: the OAuth scopes that a capability asks for, and the `Mcp-Name` header.
mod Tests
mod Base64
mod Utf8
unfoldable pub use Base64.{decode64}
unfoldable pub use Utf8.{decode_utf8}
use Prim.Native.Char.{Char, code}
use Prim.Native.String
use mcp_authz.Base.{
  ℕ, Bool, not, ◌&&◌, ◌||◌, String, List, [], ◌∷◌, Option, none, some, lookup, is_some,
  strip_prefix, or_else, and_then, nat_eq, leb, if◌then◌else◌, ◌==◌, ◌^^◌,
}
use mcp_authz.Base.Chars.{codes, text_of?}
use mcp_authz.Json.{Json, str, arr, Items, items}

-- What a scope map may hold at a key: `one` and `many` are the shapes of a scope, `other` is any value
-- that is neither.
pub data ScopeValue : Type 0 where
  one : String → ScopeValue
  many : List String → ScopeValue
  other : ScopeValue

-- The own entries of a capability scope map.
abbrev pub ScopeMap : Type 0
ScopeMap = List (String × ScopeValue)

abbrev pub requirement : Option ScopeValue → Option (List String)
requirement none = none
requirement (some (one s)) = some (s ∷ [])
requirement (some (many ss)) = some ss
requirement (some other) = none

-- Own properties only, and only the two shapes of a scope; a lone scope comes as a list of one.
unfoldable pub configured : ScopeMap → String → Option (List String)
unfolding lookup
configured scopes key = requirement (lookup scopes key)

abbrev pub scope_key : ScopeMap → Option String → String → Option String
scope_key scopes none name = none
scope_key scopes (some method) name =
    if method == "tools/call"
    then some (if is_some (configured scopes name) then name else "tool:" ^^ name)
    else if method == "prompts/get"
    then some ("prompt:" ^^ name)
    else if method == "resources/read"
    then some ("resource:" ^^ name)
    else none

abbrev pub configured_at : ScopeMap → Option String → Option (List String)
configured_at scopes none = none
configured_at scopes (some key) = configured scopes key

-- `scopesForCapability`; an empty name is no name.
unfoldable pub scopes_for_capability :
    Option String → Option String → ScopeMap → String → List String
unfolding configured
scopes_for_capability method none scopes baseline = baseline ∷ []
scopes_for_capability method (some name) scopes baseline =
    if name == ""
    then baseline ∷ []
    else or_else (configured_at scopes (scope_key scopes method name)) (baseline ∷ [])

-- The white space of `trim`.
unfoldable pub is_space : ℕ → Bool
is_space c =
    (leb 9 c && leb c 13)
    || nat_eq c 32
    || nat_eq c 160
    || nat_eq c 5760
    || (leb 8192 c && leb c 8202)
    || nat_eq c 8232
    || nat_eq c 8233
    || nat_eq c 8239
    || nat_eq c 8287
    || nat_eq c 12288
    || nat_eq c 65279

trim_start : String → String
unfolding is_space
trim_start String.[] = ""
trim_start (String.◌∷◌ c s) =
    let rest = trim_start s in if is_space (code c) then rest else String.◌∷◌ c s

trim_end : String → String
unfolding is_space
trim_end String.[] = ""
trim_end (String.◌∷◌ c s) =
    let rest = trim_end s in if is_space (code c) && rest == "" then "" else String.◌∷◌ c rest

unfoldable pub trim : String → String
unfolding trim_start trim_end
trim s = trim_end (trim_start s)

abbrev cons_to : Char → Option String → Option String
cons_to c none = none
cons_to c (some s) = some (String.◌∷◌ c s)

-- The text before the suffix `?=` that ends it.
before_close : String → Option String
before_close String.[] = none
before_close (String.◌∷◌ c s) =
    let rest = before_close s in if String.◌∷◌ c s == "?=" then some "" else cons_to c rest

-- What is between the marks of the sentinel: canonical Base64 of UTF-8, or nothing.
decode_sentinel : String → Option String
unfolding before_close decode64 decode_utf8 codes text_of?
decode_sentinel rest = and_then (before_close rest) (λ encoded.
    and_then (decode64 (codes encoded)) (λ bytes. and_then (decode_utf8 bytes) text_of?))

-- `decodeMcpNameHeader`
unfoldable pub decode_mcp_name_header : String → Option String
unfolding trim strip_prefix before_close decode_sentinel
decode_mcp_name_header value = elim (strip_prefix "=?base64?" (trim value)) [
  | none ↦ some (trim value)
  | some rest ↦
      if is_some (before_close (trim value)) then decode_sentinel rest else some (trim value)
]

-- `scopesFromMcpHeaders`, given the two headers.
unfoldable pub scopes_from_mcp_headers :
    Option String → Option String → ScopeMap → String → List String
unfolding scopes_for_capability decode_mcp_name_header
scopes_from_mcp_headers method none scopes baseline =
    scopes_for_capability method none scopes baseline
scopes_from_mcp_headers method (some raw_name) scopes baseline =
    scopes_for_capability method (decode_mcp_name_header raw_name) scopes baseline
