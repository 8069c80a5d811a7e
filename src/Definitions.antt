-- ===== src/Definitions.antt =====
-- definitions.ts: what a capability says to the model, and whether that has changed. Texts are compared by
-- their UTF-16 units, as the language sorts them. An object made of sorted entries keeps them in that
-- order here; the language lists keys that are numbers first, on both sides of a comparison alike.
pub mod Tests
pub mod Changed
use Prim.Native.Char.{code}
use Prim.Native.String
use mcp_authz.Base.{
  ℕ, ◌+◌, ◌-◌, ◌/◌, ◌%◌, Bool, true, false, not, ◌&&◌, ◌||◌, String, List, [], ◌∷◌, ◌++◌, Option,
  none, some, nat_eq, ltb, filter, contains, dedup, keys, lookup, map, or_else, if◌then◌else◌, ◌==◌,
  ◌^^◌,
}
use mcp_authz.Json.{
  Json, undefined, null, bool, num, str, arr, obj, raw, builtin, Items, nil, cons, Fields, end,
  field, entries, of_entries, record?, own,
}

-- `UNRECORDED`
abbrev pub unrecorded : List String
unrecorded = "_meta" ∷ "icons" ∷ []

-- The first UTF-16 unit of a character.
unfoldable pub unit : ℕ → ℕ
unit c = if ltb c 0x10000 then c else 0xD800 + (c - 0x10000) / 0x400

-- `a < b`
unfoldable pub before : String → String → Bool
before String.[] String.[] = false
before String.[] (String.◌∷◌ d t) = true
before (String.◌∷◌ c s) String.[] = false
before (String.◌∷◌ c s) (String.◌∷◌ d t) =
    let rest = before s t in
    if nat_eq (code c) (code d)
    then rest
    else ltb (unit (code c)) (unit (code d))
      || (nat_eq (unit (code c)) (unit (code d)) && ltb (code c) (code d))

unfoldable pub place {ℓ} : {V : Type ℓ} → String → V → List (String × V) → List (String × V)
place key value [] = (key, value) ∷ []
place key value ((k, v) ∷ rest) =
    let later = place key value rest in
    if before k key then (k, v) ∷ later else (key, value) ∷ (k, v) ∷ rest

-- Entries sorted by their key.
unfoldable pub sort_entries {ℓ} : {V : Type ℓ} → List (String × V) → List (String × V)
sort_entries [] = []
sort_entries ((key, value) ∷ rest) = place key value (sort_entries rest)

unfoldable mutual
  -- `canonical`
  pub canonical : Json → Json
  canonical (arr vs) = arr (canonical_items vs)
  canonical (obj fs) = obj (of_entries (sort_entries (canonical_fields fs)))
  canonical (raw t) = obj (field "rawJSON" (str t) end)
  canonical value = value

  canonical_items : Items → Items
  canonical_items nil = nil
  canonical_items (cons v vs) = cons (canonical v) (canonical_items vs)

  canonical_fields : Fields → List (String × Json)
  canonical_fields end = []
  canonical_fields (field k v fs) = (k, canonical v) ∷ canonical_fields fs

unfoldable pub hex_digits : List String
hex_digits =
    "0" ∷ "1" ∷ "2" ∷ "3" ∷ "4" ∷ "5" ∷ "6" ∷ "7" ∷ "8" ∷ "9" ∷ "a" ∷ "b" ∷ "c" ∷ "d" ∷ "e" ∷ "f"
    ∷ []

unfoldable pub nth : List String → ℕ → String
nth [] i = ""
nth (s ∷ rest) ℕ.zero = s
nth (s ∷ rest) (ℕ.suc i) = nth rest i

-- A character inside quotes.
unfoldable pub quoted_char : ℕ → String → String
quoted_char c one =
    if nat_eq c b'"'
    then "\\\""
    else if nat_eq c b'\\'
    then "\\\\"
    else if nat_eq c 8
    then "\\b"
    else if nat_eq c 9
    then "\\t"
    else if nat_eq c 10
    then "\\n"
    else if nat_eq c 12
    then "\\f"
    else if nat_eq c 13
    then "\\r"
    else if ltb c 32
    then "\\u00" ^^ nth hex_digits (c / 16) ^^ nth hex_digits (c % 16)
    else one

unfoldable pub quoted : String → String
quoted String.[] = "\""
quoted (String.◌∷◌ c s) = quoted_char (code c) (String.◌∷◌ c String.[]) ^^ quoted s

unfoldable pub commas : List String → String
commas [] = ""
commas (s ∷ []) = s
commas (s ∷ t ∷ rest) = s ^^ "," ^^ commas (t ∷ rest)

abbrev member_texts : String → Option String → List String → List String
member_texts key none rest = rest
member_texts key (some text) rest = ("\"" ^^ quoted key ^^ ":" ^^ text) ∷ rest

unfoldable mutual
  -- `JSON.stringify`
  pub stringify : Json → Option String
  stringify undefined = none
  stringify builtin = none
  stringify null = some "null"
  stringify (bool true) = some "true"
  stringify (bool false) = some "false"
  stringify (num t) = some t
  stringify (raw t) = some t
  stringify (str s) = some ("\"" ^^ quoted s)
  stringify (arr vs) = some ("[" ^^ commas (item_texts vs) ^^ "]")
  stringify (obj fs) = some ("{" ^^ commas (field_texts fs) ^^ "}")

  item_texts : Items → List String
  item_texts nil = []
  item_texts (cons v vs) = or_else (stringify v) "null" ∷ item_texts vs

  field_texts : Fields → List String
  field_texts end = []
  field_texts (field k v fs) = member_texts k (stringify v) (field_texts fs)

abbrev pub same_option : Option String → Option String → Bool
same_option none none = true
same_option (some s) (some t) = s == t
same_option _ _ = false

-- The comparison of two values of a field.
unfoldable pub same_json : Json → Json → Bool
same_json a b = same_option (stringify (canonical a)) (stringify (canonical b))

abbrev is_recorded : String → Bool
is_recorded name = not (contains unrecorded name)

-- The names of the fields of either side, each once.
unfoldable pub field_names : List (String × Json) → List (String × Json) → List String
field_names recorded live = dedup (filter is_recorded (keys recorded ++ keys live))

unfoldable pub sorted_names : List String → List String
sorted_names names = keys (sort_entries (map (λ name. (name, tt {0})) names))

-- `changedFields`
unfoldable pub changed_fields : List (String × Json) → List (String × Json) → List String
changed_fields recorded live =
    filter (λ name. not (same_json (own recorded name) (own live name)))
      (sorted_names (field_names recorded live))

-- `definitionOf`
unfoldable pub definition_of : List (String × Json) → Json
definition_of item = canonical (obj (of_entries (filter (λ e. is_recorded e.0) item)))

abbrev is_missing : Option Json → Bool
is_missing none = true
is_missing (some definition) = elim (record? definition) [ none ↦ true | some fs ↦ false ]

-- `missingDefinitions`
pub missing_definitions : List String → List (String × Json) → List String
missing_definitions labels definitions =
    filter (λ label. is_missing (lookup definitions label)) labels
