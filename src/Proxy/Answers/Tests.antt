-- ===== src/Proxy/Answers/Tests.antt =====
-- The answer to a listing of two tools.
use mcp_authz.Base.{String, ◌≡◌, refl, List, [], ◌∷◌, Option, none, some, Result, ok, put}
use mcp_authz.Json.{Json, Fields, str, arr, obj, end, field, entries, of_entries, of_items, own}
use mcp_authz.Policy.Tests.{ann}
use mcp_authz.Catalogue.{tools_list}
use mcp_authz.Proxy.Answers.{filter_message}
use mcp_authz.Proxy.Answers.Private.{Shows, filter_message-Shows}

abbrev named : String → Json
named name = obj (field "name" (str name) end)

abbrev to_text : Json → String
to_text (str s) = s
to_text _ = "undefined"

abbrev never : Json → Json → List String
never recorded item = []

abbrev prices : List (String × String)
prices = ("search", "read") ∷ []

abbrev result : Fields
result = field "tools" (arr (of_items (named "search" ∷ named "wipe" ∷ []))) end

abbrev message : Fields
message = field "id" (str "1") (field "result" (obj result) end)

abbrev shown : List (String × Json)
shown = ("tools", arr (of_items (named "search" ∷ []))) ∷ ("cacheScope", str "private") ∷ []

abbrev answer : Json
answer = obj (field "id" (str "1") (field "result" (obj (of_entries shown)) end))

message-filtered :
    filter_message to_text never [] ann prices tools_list (obj message) ≡ ok (some answer)
unfolding filter_message mcp_authz.Json.record? mcp_authz.Base.lookup
    mcp_authz.Proxy.Answers.spread? mcp_authz.Proxy.Answers.filter_result
    mcp_authz.Catalogue.retain_listed own mcp_authz.Catalogue.retained mcp_authz.Catalogue.keeps
    mcp_authz.Catalogue.name_of mcp_authz.Catalogue.filter_listing_result put
    mcp_authz.Catalogue.filter_by_permission mcp_authz.Proxy.Answers.is_unchanged
    mcp_authz.Record.matches mcp_authz.Catalogue.is_shown mcp_authz.Catalogue.label_of
    mcp_authz.Ladder.capability_label mcp_authz.Policy.can
message-filtered = refl

tools-listed : own (entries result) "tools" ≡ arr (of_items (named "search" ∷ named "wipe" ∷ []))
unfolding own
tools-listed = refl

filter_message-Shows_example :
    (out : List (String × Json)) × (some answer
      ≡ some (obj (of_entries (put (entries message) "result" (obj (of_entries out))))))
    × Shows to_text never [] ann prices tools_list out (named "search" ∷ named "wipe" ∷ [])
unfolding mcp_authz.Base.lookup
filter_message-Shows_example =
    filter_message-Shows to_text never [] ann prices tools_list message result (some answer)
      (named "search" ∷ named "wipe" ∷ []) refl tools-listed message-filtered
