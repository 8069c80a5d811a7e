-- ===== src/WrapConfig/Tests.antt =====
-- A config that is read, and one that is refreshed.
use mcp_authz.Base.{
  Bool, true, false, String, ◌≡◌, refl, ◌↔◌, inl, inr, List, [], ◌∷◌, Option, none, some, Result,
  ok, err, In,
}
use mcp_authz.Json.{Json, str, arr, obj, nil, cons, end, field}
use mcp_authz.WrapConfig.{Definition, WrapConfig, read_config, unknown_key, unrecorded, both_lists}
use mcp_authz.WrapConfig.Refresh.{
  DiscoveredTool, Previous, read_only, destructive, write_wrap_config,
}
use mcp_authz.WrapConfig.Jsonc.{without_comments}
use mcp_authz.WrapConfig.Recorded.{
  StaysOn, IsOnRecord, write_wrap_config-StaysOn, read_config-IsOnRecord,
}

abbrev reads : Definition
reads = ("name", str "read") ∷ []

abbrev deletes : Definition
deletes = ("name", str "delete") ∷ []

abbrev tool_read : DiscoveredTool
tool_read = record { name = "read"; hint = read_only; tokens = 12; pin = reads; warnings = [] }

abbrev tool_delete : DiscoveredTool
tool_delete = record {
  name = "delete";
  hint = destructive;
  tokens = 7;
  pin = deletes;
  warnings = [];
}

abbrev previous : Previous
previous = record {
  allow = some ("read" ∷ "delete" ∷ []);
  deny = none;
  recorded = some (("read", reads) ∷ []);
}

abbrev offered : List DiscoveredTool
offered = tool_read ∷ tool_delete ∷ []

refreshed : (write_wrap_config (some previous) offered).on ≡ (tool_read ∷ [])
unfolding write_wrap_config mcp_authz.Base.filter mcp_authz.WrapConfig.Refresh.chosen
    mcp_authz.WrapConfig.Refresh.is_new mcp_authz.Base.lookup
    mcp_authz.WrapConfig.Refresh.is_changed mcp_authz.Definitions.changed_fields
    mcp_authz.Definitions.sorted_names mcp_authz.Definitions.sort_entries
    mcp_authz.Definitions.field_names mcp_authz.Base.dedup mcp_authz.Definitions.place
    mcp_authz.Definitions.same_json mcp_authz.Definitions.stringify mcp_authz.Definitions.canonical
    mcp_authz.Json.own mcp_authz.Definitions.quoted mcp_authz.Definitions.quoted_char
    mcp_authz.Base.contains mcp_authz.Base.dedup_from mcp_authz.Base.insert
    mcp_authz.Definitions.before mcp_authz.Definitions.commas mcp_authz.Definitions.hex_digits
    mcp_authz.Definitions.nth mcp_authz.Definitions.unit mcp_authz.WrapConfig.Refresh.sum
refreshed = refl

fresh : (write_wrap_config none offered).off ≡ (tool_delete ∷ [])
unfolding write_wrap_config mcp_authz.Base.filter mcp_authz.WrapConfig.Refresh.chosen
fresh = refl

write_wrap_config-StaysOn_example :
    In tool_read (write_wrap_config (some previous) offered).on
    ↔ (In tool_read offered × StaysOn previous tool_read)
write_wrap_config-StaysOn_example = write_wrap_config-StaysOn previous offered tool_read

abbrev schema : Result String Json
schema = ok (
    obj (
      field "x-mcp-authz-tools" (obj (field "read" (obj (field "name" (str "read") end)) end)) end))

abbrev config_of : String → Json → Json
config_of key value =
    obj (field "server" (obj (field "command" (str "node") end)) (field key value end))

abbrev same_path : String → String
same_path path = path

abbrev config_read : WrapConfig
config_read = record {
  command = "node";
  args = [];
  cwd = ".";
  pinned = some (("read", reads) ∷ []);
  allow = some ("read" ∷ []);
  deny = none;
}

accepted :
    read_config same_path true schema (config_of "allow" (arr (cons (str "read") nil)))
    ≡ ok config_read
unfolding read_config mcp_authz.WrapConfig.check_keys mcp_authz.Base.find mcp_authz.Base.contains
    mcp_authz.Json.own mcp_authz.WrapConfig.listed mcp_authz.WrapConfig.recorded_tools
    mcp_authz.WrapConfig.definitions_in mcp_authz.WrapConfig.held mcp_authz.Base.filter
accepted = refl

misspelt :
    read_config same_path true schema (config_of "alow" (arr (cons (str "read") nil)))
    ≡ err (unknown_key "alow")
unfolding read_config mcp_authz.WrapConfig.check_keys mcp_authz.Base.find mcp_authz.Base.contains
misspelt = refl

not_recorded :
    read_config same_path true schema (config_of "deny" (arr (cons (str "write") nil)))
    ≡ err (unrecorded ("write" ∷ []))
unfolding read_config mcp_authz.WrapConfig.check_keys mcp_authz.Base.find mcp_authz.Base.contains
    mcp_authz.Json.own mcp_authz.WrapConfig.listed mcp_authz.WrapConfig.recorded_tools
    mcp_authz.WrapConfig.definitions_in mcp_authz.WrapConfig.held mcp_authz.Base.filter
not_recorded = refl

read_config-IsOnRecord_example : IsOnRecord same_path schema config_read
read_config-IsOnRecord_example =
    read_config-IsOnRecord same_path schema (config_of "allow" (arr (cons (str "read") nil)))
      config_read accepted

uncommented : without_comments "{\"a//b\": [1, /* two */ ], } // end" ≡ "{\"a//b\": [1]} \n"
unfolding without_comments mcp_authz.Base.Chars.text_of? mcp_authz.WrapConfig.Jsonc.scan
    mcp_authz.Base.Chars.codes mcp_authz.WrapConfig.Jsonc.step
    mcp_authz.WrapConfig.Jsonc.without_comma mcp_authz.WrapConfig.Jsonc.skip_spaces
    mcp_authz.Scopes.is_space
uncommented = refl
