-- ===== src/Record/Tests.antt =====
-- One tool, listed unchanged, and asked about within a minute.
use mcp_authz.Base.{
  ℕ, ◌+◌, ◌<◌, String, Bool, true, false, ◌≡◌, refl, inl, List, [], ◌∷◌, ◌++◌, Option, none, some,
  Result, ok, err, In,
}
use mcp_authz.Json.{Json, str}
use mcp_authz.Record.{State, Definitions, start, refuse, fresh_ms}
use mcp_authz.Record.Runs.{begin, sightings, refuse-passes}

abbrev same_text : Json → Json → List String
same_text (str s) (str t) = []
same_text _ _ = "description" ∷ []

abbrev approved : Definitions
approved = ("search", str "finds") ∷ []

abbrev listing : Result String (List (String × Json))
listing = ok (("search", str "finds") ∷ [])

passed : (refuse same_text approved ("search" ∷ []) 100 110 120 listing start).0 ≡ none
unfolding refuse mcp_authz.Base.any mcp_authz.Record.recorded_of mcp_authz.Base.filter
    mcp_authz.Base.lookup mcp_authz.Record.is_unchecked mcp_authz.Record.is_fresh
    mcp_authz.Record.first_complaint mcp_authz.Record.relisted mcp_authz.Record.matches
    mcp_authz.Base.remove mcp_authz.Base.put
passed = refl

refuse-passes_example :
    (item : Json) × (t : ℕ) × In
      (record { label = "search"; item = item; at = t })
      (sightings 110 listing ++ [])
    × (same_text (str "finds") item ≡ [])
    × (120 < t + fresh_ms)
unfolding mcp_authz.Base.lookup
refuse-passes_example =
    refuse-passes same_text approved [] start ("search" ∷ []) 100 110 120 listing begin passed
      "search" (str "finds") (inl refl) refl
