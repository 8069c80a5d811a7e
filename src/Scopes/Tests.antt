-- ===== src/Scopes/Tests.antt =====
-- Names in the `Mcp-Name` header: plain, encoded, and encoded wrongly; and the scopes of a tool.
use mcp_authz.Base.{◌≡◌, refl, [], ◌∷◌, none, some}
use mcp_authz.Scopes.{ScopeMap, one, many, decode_mcp_name_header, scopes_for_capability}

plain : decode_mcp_name_header " search " ≡ some "search"
unfolding decode_mcp_name_header
plain = refl

encoded : decode_mcp_name_header "=?base64?w6k=?=" ≡ some "é"
unfolding decode_mcp_name_header
encoded = refl

not_canonical : decode_mcp_name_header "=?base64?w6k?=" ≡ none
unfolding decode_mcp_name_header
not_canonical = refl

not_utf8 : decode_mcp_name_header "=?base64?/w==?=" ≡ none
unfolding decode_mcp_name_header
not_utf8 = refl

abbrev scopes : ScopeMap
scopes = ("search", one "find") ∷ ("tool:wipe", many ("admin" ∷ "delete" ∷ [])) ∷ []

bare : scopes_for_capability (some "tools/call") (some "search") scopes "mcp" ≡ "find" ∷ []
unfolding scopes_for_capability
bare = refl

prefixed :
    scopes_for_capability (some "tools/call") (some "wipe") scopes "mcp" ≡ "admin" ∷ "delete" ∷ []
unfolding scopes_for_capability
prefixed = refl

unnamed : scopes_for_capability (some "tools/call") none scopes "mcp" ≡ "mcp" ∷ []
unfolding scopes_for_capability
unnamed = refl
