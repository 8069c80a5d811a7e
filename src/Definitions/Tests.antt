-- ===== src/Definitions/Tests.antt =====
-- One definition, read twice: its description has changed, the order of its other keys too.
use mcp_authz.Base.{String, ◌≡◌, refl, ◌↔◌, ◌⊎◌, ◌≢◌, List, [], ◌∷◌, Option, none, some, In, keys}
use mcp_authz.Json.{Json, num, str, obj, end, field, own}
use mcp_authz.Definitions.{unrecorded, canonical, stringify, changed_fields}
use mcp_authz.Definitions.Changed.{In-changed_fields}

abbrev recorded_tool : List (String × Json)
recorded_tool =
    ("name", str "read")
    ∷ ("description", str "Reads a file.")
    ∷ ("inputSchema", obj (field "b" (num "1") (field "a" (num "2") end)))
    ∷ []

abbrev live_tool : List (String × Json)
live_tool =
    ("inputSchema", obj (field "a" (num "2") (field "b" (num "1") end)))
    ∷ ("description", str "Reads \"any\" file.")
    ∷ ("name", str "read")
    ∷ ("icons", num "1")
    ∷ []

only_description_changed : changed_fields recorded_tool live_tool ≡ "description" ∷ []
unfolding changed_fields mcp_authz.Base.filter mcp_authz.Definitions.sort_entries
    mcp_authz.Definitions.field_names mcp_authz.Base.dedup mcp_authz.Definitions.place
    mcp_authz.Definitions.before mcp_authz.Definitions.unit mcp_authz.Definitions.same_json
    stringify canonical own mcp_authz.Definitions.quoted mcp_authz.Definitions.quoted_char
    mcp_authz.Definitions.commas mcp_authz.Definitions.sorted_names
only_description_changed = refl

In-changed_fields_example : In "description" (changed_fields recorded_tool live_tool) ↔ (
    (In "description" (keys recorded_tool) ⊎ In "description" (keys live_tool))
    × (¬ In "description" unrecorded)
    × (stringify (canonical (own recorded_tool "description"))
        ≢ stringify (canonical (own live_tool "description"))))
In-changed_fields_example = In-changed_fields recorded_tool live_tool "description"
