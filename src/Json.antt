-- ===== src/Json.antt =====
-- Values of the dynamic language: what `JSON.parse` returns and what policies, claims, request bodies
-- and listings are made of. An object is its own enumerable entries in enumeration order, under
-- distinct keys; a number is the text that `String` gives it.
pub mod Access
use mcp_authz.Base.{Bool, true, false, String, List, [], ◌∷◌, Option, none, some, lookup}

mutual
  pub data Json : Type 0 where
    undefined null : Json
    bool : Bool → Json
    num : String → Json
    str : String → Json
    arr : Items → Json
    obj : Fields → Json
    -- what `JSON.rawJSON` makes of the text of a number
    raw : String → Json
    -- a built-in member that every object inherits: a function or a prototype
    builtin : Json

  pub data Items : Type 0 where
    nil : Items
    cons : Json → Items → Items

  pub data Fields : Type 0 where
    end : Fields
    field : String → Json → Fields → Fields

abbrev pub items : Items → List Json
items nil = []
items (cons v vs) = v ∷ items vs

abbrev pub of_items : List Json → Items
of_items [] = nil
of_items (v ∷ vs) = cons v (of_items vs)

-- `Object.entries`
abbrev pub entries : Fields → List (String × Json)
entries end = []
entries (field k v fs) = (k, v) ∷ entries fs

abbrev pub of_entries : List (String × Json) → Fields
of_entries [] = end
of_entries ((k, v) ∷ fs) = field k v (of_entries fs)

-- `typeof value === 'object' && value !== null && !Array.isArray(value)`, as the entries of the
-- record.
unfoldable pub record? : Json → Option (List (String × Json))
record? (obj fs) = some (entries fs)
record? (raw t) = some (("rawJSON", str t) ∷ [])
record? _ = none

unfoldable pub string? : Json → Option String
string? (str s) = some s
string? _ = none

-- An own entry of a record, `undefined` where there is none. The keys that the code reads this way are
-- none of the inherited ones.
abbrev own_value : Option Json → Json
own_value none = undefined
own_value (some v) = v

unfoldable pub own : List (String × Json) → String → Json
unfolding lookup
own fs k = own_value (lookup fs k)
