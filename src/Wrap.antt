-- ===== src/Wrap.antt =====
-- wrap.ts: what stands between a client and a server over stdio. Here is what it keeps of a session, and how
-- a listed tool is held to the record. A tool whose name is no text changes nothing that is kept: it is named
-- by no list and no record, and it is left out of the counts that are logged.
pub mod Tests
pub mod Lines
pub mod Client
pub mod Server
pub mod Session
pub mod Each
use Prim.Native.Char.{code}
use Prim.Native.String
use mcp_authz.Base.{
  ℕ, zero, ◌+◌, ◌/◌, Bool, true, false, not, ◌&&◌, String, List, [], ◌∷◌, ◌++◌, Option, none, some,
  ltb, any, filter, contains, insert, lookup, put, remove, keys, is_some, or_else, and_then,
  if◌then◌else◌, ◌==◌, ◌^^◌, decimal,
}
use mcp_authz.Json.{
  Json, undefined, null, bool, num, str, arr, obj, raw, builtin, Items, Fields, nil, cons, end,
  field, items, record?, own,
}
use mcp_authz.Screen.{Checked, members}
use mcp_authz.Definitions.{stringify, changed_fields, definition_of}
use mcp_authz.Proxy.Answers.{same_value}

abbrev pub Definition : Type 0
Definition = List (String × Json)

-- What `wrap` reads of its `WrapOptions`.
pub record Options : Type 0 where
  pub allow : Option (List String)
  pub deny : Option (List String)
  pub pinned : Option (List (String × Definition))

-- The language and the SDK: `JSON.parse` plain, with every number kept exact where it would be rounded, and
-- with every number kept as written; the check of a schema; and `(tokens / 1000).toFixed(1)`.
pub record Outside : Type 0 where
  pub parse : String → Option Json
  pub parse_checked : String → Option Json
  pub parse_verbatim : String → Option Json
  pub validate : Json → Json → Checked
  pub thousands : ℕ → String

-- A call that waits until its tool has been checked.
pub record Held : Type 0 where
  pub line : String
  pub message : List (String × Json)
  pub name : String

-- What `wrap` keeps of a session. The ids of requests are values, compared as `Map` and `Set` do.
pub record State : Type 0 where
  pub changed : List (String × String)
  pub verified : List String
  pub listing : List Json
  pub discovering : List Json
  pub held : List Held
  pub verifying : Option String
  pub verifications : ℕ
  pub verify_meta : Json
  pub calls : List (Json × String)
  pub seen : List (String × ℕ)
  pub reported : Bool
  pub stopping : Bool

abbrev pub start : State
start = record {
  changed = [];
  verified = [];
  listing = [];
  discovering = [];
  held = [];
  verifying = none;
  verifications = 0;
  verify_meta = undefined;
  calls = [];
  seen = [];
  reported = false;
  stopping = false;
}

-- A line of the client's that the server is given, with the message that it was read as; a request of
-- `wrap`'s own to the server; a line that the client is given; and a line that is logged.
pub data Act : Type 0 where
  forwarded : (line : String) (message : List (String × Json)) → Act
  requested : Json → Act
  sent : String → Act
  logged : String → Act

pub text_of : Json → String
text_of value = or_else (stringify value) "undefined"

abbrev pub is_undefined : Json → Bool
is_undefined undefined = true
is_undefined value = false

-- Whether a value counts as true.
pub is_truthy : Json → Bool
is_truthy undefined = false
is_truthy null = false
is_truthy (bool b) = b
is_truthy (num t) = not (t == "0")
is_truthy (str s) = not (s == "")
is_truthy value = true

-- `value ?? null`
abbrev pub or_null : Json → Json
or_null undefined = null
or_null value = value

-- `set.has(id)`
pub has_id : List Json → Json → Bool
has_id ids id = any (λ other. same_value other id) ids

-- `set.add(id)`
pub add_id : List Json → Json → List Json
add_id ids id = if has_id ids id then ids else ids ++ id ∷ []

-- `set.delete(id)`
pub drop_id : List Json → Json → List Json
drop_id ids id = filter (λ other. not (same_value other id)) ids

-- `map.get(id)`
pub call_at : List (Json × String) → Json → Option String
call_at [] id = none
call_at ((other, name) ∷ calls) id = if same_value other id then some name else call_at calls id

pub drop_call : List (Json × String) → Json → List (Json × String)
drop_call calls id = filter (λ call. not (same_value call.0 id)) calls

-- `map.set(id, name)`
pub put_call : List (Json × String) → Json → String → List (Json × String)
put_call [] id name = (id, name) ∷ []
put_call ((other, old) ∷ calls) id name =
    let later = put_call calls id name in
    if same_value other id then (other, name) ∷ calls else (other, old) ∷ later

-- The UTF-16 units of a text.
pub units : String → ℕ
units String.[] = 0
units (String.◌∷◌ c s) = (if ltb (code c) 0x10000 then 1 else 2) + units s

-- `estimateTokens`
pub estimate_tokens : Json → ℕ
estimate_tokens tool = (units (text_of tool) + 3) / 4

-- `array.join(', ')`
pub joined : List String → String
joined [] = ""
joined (s ∷ []) = s
joined (s ∷ t ∷ rest) = s ^^ ", " ^^ joined (t ∷ rest)

-- `name` of a listed tool: no value, where the tool is none that a name can be read of.
pub tool_name : Json → Option (Option String)
tool_name undefined = none
tool_name null = none
tool_name (obj fs) = some (elim (own (members (obj fs)) "name") [ str s ↦ some s | _ ↦ none ])
tool_name value = some none

-- `for (const tool of tools)`, with what is done for a tool of each name; no value, where that throws.
pub for_each :
    (State → Option String → Json → State × List Act)
    → State
    → List Json
    → Option (State × List Act)
for_each handle s [] = some (s, [])
for_each handle s (tool ∷ tools) = and_then (tool_name tool) (λ name.
    and_then (for_each handle (handle s name tool).0 tools)
      (λ rest. some (rest.0, (handle s name tool).1 ++ rest.1)))

module _ (options : Options) where
  -- `listed`
  pub listed : String → Bool
  listed name = elim options.allow [
    | some names ↦ contains names name
    | none ↦ not (elim options.deny [ none ↦ false | some names ↦ contains names name ])
  ]

  abbrev complaint : List String → Option String
  complaint [] = none
  complaint (first ∷ rest) =
      some ("its " ^^ joined (first ∷ rest) ^^ " changed since you approved it")

  abbrev drift_from : Option Definition → Json → Option String
  drift_from none tool =
      if is_some options.allow then some "it was not offered when you approved this list" else none
  drift_from (some approved) tool =
      complaint (changed_fields approved (members (definition_of (members tool))))

  abbrev drift_in : Option (List (String × Definition)) → String → Json → Option String
  drift_in none name tool = none
  drift_in (some pinned) name tool = drift_from (lookup pinned name) tool

  -- `drift`, of a tool of this name.
  pub drift : String → Json → Option String
  drift name tool = drift_in options.pinned name tool

  -- `visible`
  pub visible : State → String → Bool
  visible s name = listed name && not (is_some (lookup s.changed name))

  abbrev pub is_reason : String → Option String → Bool
  is_reason reason none = false
  is_reason reason (some old) = old == reason

  pub hid : String → String → Act
  hid name reason = logged (
      "mcp-authz wrap: hid " ^^ name ^^ ": " ^^ reason
      ^^ ". Review it with mcp-authz tools --check <config>, then --refresh to approve.")

  abbrev pub settled : State → String → Option String → State × List Act
  settled s name none =
      (record s { changed = remove s.changed name; verified = insert s.verified name }, [])
  settled s name (some reason) =
      let doubted = record s { verified = filter (λ other. not (other == name)) s.verified } in
      if listed name && not (is_reason reason (lookup s.changed name))
      then (record doubted { changed = put s.changed name reason }, hid name reason ∷ [])
      else (doubted, [])

  -- `check`, of a tool of this name.
  pub check : State → String → Json → State × List Act
  check s name tool = settled s name (drift name tool)

  abbrev pub check_named : State → Option String → Json → State × List Act
  check_named s none tool = (s, [])
  check_named s (some name) tool = check s name tool

  -- `for (const tool of tools) check(tool)`
  pub check_all : State → List Json → Option (State × List Act)
  check_all = for_each check_named
