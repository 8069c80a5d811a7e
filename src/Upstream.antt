-- ===== src/Upstream.antt =====
-- upstream.ts: a body read under a cap, and the headers that cross a hop.
pub mod Tests
pub mod Capped
pub mod Headers
use mcp_authz.Base.{
  ℕ, ◌+◌, Bool, not, ◌||◌, String, List, [], ◌∷◌, ◌++◌, Option, none, some, length, ltb, filter,
  map, contains, lookup, if◌then◌else◌, ◌==◌, ◌^^◌,
}
use mcp_authz.Policy.Matching.{split_on}
use mcp_authz.Scopes.{trim}

-- The loop of `readCappedBody` over the chunks that the reader hands out: it stops at the first that
-- takes the total over the cap.
unfoldable pub read_from : ℕ → List ℕ → ℕ → List (List ℕ) → Option (List ℕ)
read_from total joined max_bytes [] = some joined
read_from total joined max_bytes (chunk ∷ rest) =
    let more = read_from (total + length chunk) (joined ++ chunk) max_bytes rest in
    if ltb max_bytes (total + length chunk) then none else more

-- `readCappedBody`, before the bytes are decoded.
unfoldable pub read_capped_body : List (List ℕ) → ℕ → Option (List ℕ)
unfolding read_from
read_capped_body body max_bytes = read_from 0 [] max_bytes body

-- `DROPPED_ON_FORWARD`
abbrev pub dropped_on_forward : List String
dropped_on_forward =
    "authorization" ∷ "cookie" ∷ "host" ∷ "connection" ∷ "keep-alive" ∷ "proxy-authenticate"
    ∷ "proxy-authorization" ∷ "te" ∷ "trailer" ∷ "transfer-encoding" ∷ "upgrade" ∷ []

-- `headers.set(name, value)` over the entries of a `Headers`, whose names are in lower case.
pub set_header : String → String → List (String × String) → List (String × String)
set_header name value [] = (name, value) ∷ []
set_header name value ((n, v) ∷ rest) =
    let more = set_header name value rest in
    if n == name then (name, value) ∷ rest else (n, v) ∷ more

-- The further fields that a `Connection` header names.
pub hop_fields : (String → String) → Option String → List String
hop_fields lower none = []
hop_fields lower (some value) =
    filter (λ field. not (field == "")) (map (λ part. lower (trim part)) (split_on b',' value))

pub is_dropped : (String → String) → List (String × String) → String → Bool
is_dropped lower headers name =
    contains dropped_on_forward name
    || contains (hop_fields lower (lookup headers "connection")) name

-- The headers of the request that `forwardToUpstream` sends.
pub forwarded_headers : (String → String) → List (String × String) → String → List (String × String)
forwarded_headers lower headers bearer =
    set_header "authorization" ("Bearer " ^^ bearer)
      (filter (λ h. not (is_dropped lower headers (lower h.0))) headers)

-- `headersForRewrittenBody`
pub delete_header : String → List (String × String) → List (String × String)
delete_header name headers = filter (λ h. not (h.0 == name)) headers

pub headers_for_rewritten_body : List (String × String) → List (String × String)
headers_for_rewritten_body headers =
    delete_header "content-encoding" (delete_header "content-length" headers)
