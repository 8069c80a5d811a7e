-- ===== src/WrapConfig/Refresh.antt =====
-- wrap-config.ts: which tools a config that is written, or written anew, switches on.
use mcp_authz.Base.{
  ℕ, ◌+◌, Bool, true, false, not, ◌&&◌, ◌||◌, String, List, [], ◌∷◌, Option, none, some, is_some,
  is_empty, filter, contains, lookup, length, if◌then◌else◌,
}
use mcp_authz.Definitions.{changed_fields}
use mcp_authz.WrapConfig.{Definition}

pub data Hint : Type 0 where
  read_only destructive unknown_hint : Hint

-- `DiscoveredTool`, as far as it decides what is switched on.
pub record DiscoveredTool : Type 0 where
  pub name : String
  pub hint : Hint
  pub tokens : ℕ
  pub pin : Definition
  pub warnings : List String

-- What a config said before it is written anew, with the record beside it, where there was one to read.
pub record Previous : Type 0 where
  pub allow : Option (List String)
  pub deny : Option (List String)
  pub recorded : Option (List (String × Definition))

abbrev recorded_at : Option (List (String × Definition)) → String → Option Definition
recorded_at none name = none
recorded_at (some recorded) name = lookup recorded name

abbrev pub approved : Option Previous → String → Option Definition
approved none name = none
approved (some previous) name = recorded_at previous.recorded name

-- `isNew`
unfoldable pub is_new : Option Previous → DiscoveredTool → Bool
is_new previous tool = is_some previous && not (is_some (approved previous tool.name))

abbrev differs_from : DiscoveredTool → Option Definition → Bool
differs_from tool none = false
differs_from tool (some definition) = not (is_empty (changed_fields definition tool.pin))

-- `isChanged`
unfoldable pub is_changed : Option Previous → DiscoveredTool → Bool
is_changed previous tool = differs_from tool (approved previous tool.name)

abbrev is_denied : Option (List String) → String → Bool
is_denied none name = false
is_denied (some deny) name = contains deny name

-- What the lists of a config say of a name.
abbrev pub was_on : Option (List String) → Option (List String) → String → Bool
was_on (some allow) deny name = contains allow name
was_on none deny name = not (is_denied deny name)

abbrev is_read_only : Hint → Bool
is_read_only read_only = true
is_read_only _ = false

-- `chosen`
unfoldable pub chosen : Option Previous → DiscoveredTool → Bool
chosen none tool = is_read_only tool.hint && is_empty tool.warnings
chosen (some previous) tool =
    if is_new (some previous) tool || is_changed (some previous) tool
    then false
    else was_on previous.allow previous.deny tool.name

unfoldable pub sum : List DiscoveredTool → ℕ
sum [] = 0
sum (tool ∷ rest) = tool.tokens + sum rest

-- What `writeWrapConfig` answers, with the tools that it switches on and off.
pub record Written : Type 0 where
  pub on : List DiscoveredTool
  pub off : List DiscoveredTool
  pub added : ℕ
  pub changed : ℕ
  pub tokens_allowed : ℕ
  pub tokens_total : ℕ

-- `writeWrapConfig`, but for the text of the files.
unfoldable pub write_wrap_config : Option Previous → List DiscoveredTool → Written
write_wrap_config previous tools =
    let on = filter (chosen previous) tools in
    record {
      on = on;
      off = filter (λ (tool : DiscoveredTool). not (chosen previous tool)) tools;
      added = length (filter (is_new previous) tools);
      changed = length (filter (is_changed previous) tools);
      tokens_allowed = sum on;
      tokens_total = sum tools;
    }
