-- ===== src/Upstream/Tests.antt =====
-- A body in two chunks, and the headers of one request.
use mcp_authz.Base.{
  if◌then◌else◌, ltb, ℕ, String, ◌≡◌, ◌⊎◌, List, [], ◌∷◌, none, some, In, length, lookup,
}
use mcp_authz.Upstream.{dropped_on_forward, hop_fields, forwarded_headers, read_capped_body}
use mcp_authz.Upstream.Capped.{whole, read_capped_body_lem}
use mcp_authz.Upstream.Headers.{forwarded_headers_sound}

abbrev chunks : List (List ℕ)
chunks = (1 ∷ 2 ∷ []) ∷ (3 ∷ []) ∷ []

read_capped_body_lem_example :
    read_capped_body chunks 3
    ≡ (if ltb 3 (length (whole chunks)) then none else some (whole chunks))
read_capped_body_lem_example = read_capped_body_lem chunks 3

abbrev sent : List (String × String)
sent =
    ("authorization", "Bearer caller")
    ∷ ("connection", "x-hop")
    ∷ ("x-hop", "1")
    ∷ ("accept", "*/*")
    ∷ []

forwarded_headers_sound_example :
    (lookup (forwarded_headers (λ s. s) sent "service") "authorization" ≡ some "Bearer service")
    × ((n v : String)
        → In (n, v) (forwarded_headers (λ s. s) sent "service")
        → ((n ≡ "authorization") × (v ≡ "Bearer service"))
          ⊎ (In {A = String × String} (n, v) sent
              × (¬ In n dropped_on_forward)
              × (¬ In n (hop_fields (λ s. s) (lookup sent "connection")))))
forwarded_headers_sound_example = forwarded_headers_sound (λ s. s) sent "service"
