-- ===== src/Catalogue/Tests.antt =====
-- A listing of two tools, one of which the caller may use.
use mcp_authz.Base.{
  String, Bool, true, false, ◌≡◌, refl, ◌↔◌, ◌≢◌, List, [], ◌∷◌, Result, ok, In, ◌==◌,
}
use mcp_authz.Json.{Json, str, arr, obj, end, field, of_items, own}
use mcp_authz.Policy.{Principal}
use mcp_authz.Policy.Tests.{ann}
use mcp_authz.Ladder.{tool, capability_label}
use mcp_authz.Catalogue.{ListingMethod, tools_list, name_of, filter_listing_result, retain_listed}
use mcp_authz.Catalogue.Shown.{IsShown, filter_listing_result-shows}

abbrev named : String → Json
named name = obj (field "name" (str name) end)

abbrev listed : List Json
listed = named "search" ∷ named "wipe" ∷ []

abbrev result : List (String × Json)
result = ("tools", arr (of_items listed)) ∷ ("nextCursor", str "2") ∷ []

abbrev shorter : List (String × Json)
shorter = ("tools", arr (of_items (named "search" ∷ []))) ∷ ("nextCursor", str "2") ∷ []

abbrev to_text : Json → String
to_text (str s) = s
to_text _ = "undefined"

abbrev prices : List (String × String)
prices = ("search", "read") ∷ []

listed-there : own result "tools" ≡ arr (of_items listed)
unfolding own
listed-there = refl

filtered : filter_listing_result to_text tools_list result ann prices ≡ ok shorter
unfolding filter_listing_result own mcp_authz.Catalogue.filter_by_permission
    mcp_authz.Catalogue.retained mcp_authz.Catalogue.is_shown name_of mcp_authz.Base.put
    mcp_authz.Catalogue.label_of mcp_authz.Json.record? capability_label mcp_authz.Policy.can
filtered = refl

filter_listing_result-shows_example :
    (shown : List Json) × (own shorter "tools" ≡ arr (of_items shown))
    × ((item : Json) → In item shown ↔ (In item listed × IsShown to_text tool ann prices item))
    × ((other : String) → other ≢ "tools" → own shorter other ≡ own result other)
filter_listing_result-shows_example =
    filter_listing_result-shows to_text tools_list result listed ann prices shorter listed-there
      filtered

abbrev keep_search : String → Json → Bool
keep_search label item = label == "search"

kept : retain_listed to_text tools_list result keep_search ≡ ok shorter
unfolding retain_listed own mcp_authz.Catalogue.retained mcp_authz.Catalogue.keeps name_of
    mcp_authz.Base.put capability_label mcp_authz.Json.record?
kept = refl
