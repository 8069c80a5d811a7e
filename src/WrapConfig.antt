-- ===== src/WrapConfig.antt =====
-- wrap-config.ts: reading a config and the record beside it.
-- Reading files, `JSON.parse` and paths are parameters.
pub mod Jsonc
pub mod Refresh
pub mod Recorded
pub mod Tests
use mcp_authz.Base.{
  ℕ, ◌+◌, Bool, true, false, not, ◌&&◌, ◌||◌, String, List, [], ◌∷◌, ◌++◌, Option, none, some,
  Result, ok, err, ◌>>=◌, ◌>>◌, refuse_if, is_some, is_empty, or_else, or_option, filter, find,
  contains, keys, lookup, length, if◌then◌else◌, ◌==◌, ◌^^◌,
}
use mcp_authz.Json.{Json, undefined, null, str, arr, obj, Items, nil, cons, own, entries}
use mcp_authz.Screen.{members}
use mcp_authz.Definitions.{changed_fields}
use mcp_authz.WrapConfig.Jsonc.{parse_jsonc}

-- A definition as the server sent it, less what is not recorded.
abbrev pub Definition : Type 0
Definition = List (String × Json)

pub data ConfigError : Type 0 where
  unreadable : ConfigError
  not_jsonc : (reason : String) → ConfigError
  unknown_key : (key : String) → ConfigError
  no_command no_cwd no_args both_lists : ConfigError
  no_list : (key : String) → ConfigError
  damaged : (problem : String) → ConfigError
  unrecorded : (names : List String) → ConfigError

-- `Object.keys`, of which the first is enough where a list has any.
abbrev keys_of : Json → List String
keys_of (obj fields) = keys (entries fields)
keys_of (arr (cons value rest)) = "0" ∷ []
keys_of _ = []

abbrev refuse_key : String → Option String → Result ConfigError (Unit {0})
refuse_key prefix none = ok tt
refuse_key prefix (some key) = err (unknown_key (prefix ^^ key))

-- `unknown`
pub check_keys : Json → List String → String → Result ConfigError (Unit {0})
check_keys value known prefix =
    refuse_key prefix (find (λ key. not (contains known key)) (keys_of value))

abbrev with_text : Json → Option (List String) → Option (List String)
with_text (str s) (some rest) = some (s ∷ rest)
with_text _ _ = none

abbrev texts : Items → Option (List String)
texts nil = some []
texts (cons value rest) = with_text value (texts rest)

-- A list of texts.
abbrev pub strings : Json → Option (List String)
strings (arr values) = texts values
strings _ = none

abbrev pub text_or : ConfigError → Json → Result ConfigError String
text_or error (str s) = ok s
text_or error _ = err error

abbrev pub list_or : ConfigError → Option (List String) → Result ConfigError (List String)
list_or error none = err error
list_or error (some values) = ok values

-- `value ?? otherwise`
abbrev pub or_value : Json → Json → Json
or_value undefined otherwise = otherwise
or_value null otherwise = otherwise
or_value value otherwise = value

abbrev some_list : ConfigError → Option (List String) → Result ConfigError (Option (List String))
some_list error none = err error
some_list error (some values) = ok (some values)

-- A list that may be left out.
abbrev pub list_at : String → Json → Result ConfigError (Option (List String))
list_at key undefined = ok none
list_at key value = some_list (no_list key) (strings value)

abbrev pub is_given : Json → Bool
is_given undefined = false
is_given value = true

abbrev definition_in : String → Json → Result ConfigError Definition
definition_in name (obj fields) = ok (entries fields)
definition_in name value = err (damaged ("the record for \"" ^^ name ^^ "\" is not a definition"))

-- Every entry of the record is a definition.
pub definitions_in : List (String × Json) → Result ConfigError (List (String × Definition))
definitions_in [] = ok []
definitions_in ((name, value) ∷ rest) = definition_in name value >>= λ definition.
    definitions_in rest >>= λ others. ok ((name, definition) ∷ others)

abbrev record_in : Json → Result ConfigError (List (String × Definition))
record_in (obj fields) = definitions_in (entries fields)
record_in value = err (damaged "no \"x-mcp-authz-tools\" record in it")

abbrev tools_in : Result String Json → Result ConfigError (List (String × Definition))
tools_in (err problem) = err (damaged problem)
tools_in (ok schema) = record_in (own (members schema) "x-mcp-authz-tools")

-- `recordedTools`, of what reading the schema comes to.
pub recorded_tools : Result String Json → Result ConfigError (List (String × Definition))
recorded_tools schema = tools_in schema

-- What `readWrapConfig` answers: `WrapOptions` as far as the config says them.
pub record WrapConfig : Type 0 where
  pub command : String
  pub args : List String
  pub cwd : String
  pub pinned : Option (List (String × Definition))
  pub allow : Option (List String)
  pub deny : Option (List String)

abbrev pub lacks : Option (List (String × Definition)) → String → Bool
lacks none name = true
lacks (some pinned) name = not (is_some (lookup pinned name))

abbrev pub pinned_if :
    Bool → Result String Json → Result ConfigError (Option (List (String × Definition)))
pinned_if false schema = ok none
pinned_if true schema = recorded_tools schema >>= λ pinned. ok (some pinned)

module _ (resolve_cwd : String → String) (recording : Bool) (schema : Result String Json) where
  -- The end of `readWrapConfig`: no name that the record lacks, and what is answered.
  pub held :
      String
      → String
      → List String
      → Option (List String)
      → Option (List String)
      → Option (List (String × Definition))
      → Result ConfigError WrapConfig
  held command cwd args allow deny pinned =
      let unknown = filter (lacks pinned) (or_else (or_option allow deny) []) in
      refuse_if (is_some pinned && not (is_empty unknown)) (unrecorded unknown)
      >> ok (record {
        command = command;
        args = args;
        cwd = resolve_cwd cwd;
        pinned = pinned;
        allow = allow;
        deny = deny;
      })

  -- The lists, and the record.
  pub listed :
      (allowed denied : Json) → String → String → List String → Result ConfigError WrapConfig
  listed allowed denied command cwd args =
      refuse_if (is_given allowed && is_given denied) both_lists
      >> (list_at "allow" allowed >>= λ allow. list_at "deny" denied >>= λ deny.
          pinned_if recording schema >>= λ pinned. held command cwd args allow deny pinned)

  -- `readWrapConfig`, from the value of the config's text on.
  pub read_config : Json → Result ConfigError WrapConfig
  read_config config =
      let server = own (members config) "server" in
      check_keys config ("$schema" ∷ "server" ∷ "allow" ∷ "deny" ∷ []) ""
      >> (check_keys server ("command" ∷ "args" ∷ "cwd" ∷ []) "server."
          >> (text_or no_command (own (members server) "command") >>= λ command.
              text_or no_cwd (or_value (own (members server) "cwd") (str ".")) >>= λ cwd.
              list_or no_args (strings (or_value (own (members server) "args") (arr nil)))
              >>= λ args.
                  listed (own (members config) "allow") (own (members config) "deny") command cwd
                    args))

abbrev parsed : Result String Json → Result ConfigError Json
parsed (err reason) = err (not_jsonc reason)
parsed (ok value) = ok value

abbrev text_in : Option String → Result ConfigError String
text_in none = err unreadable
text_in (some text) = ok text

-- `readWrapConfig`, of what reading the files comes to; `parse` stands for `JSON.parse`.
pub read_wrap_config :
    (String → Result String Json)
    → (String → String)
    → Bool
    → Result String Json
    → Option String
    → Result ConfigError WrapConfig
read_wrap_config parse resolve_cwd recording schema text = text_in text >>= λ read.
    parsed (parse_jsonc parse read) >>= λ config. read_config resolve_cwd recording schema config
