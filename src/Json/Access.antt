-- ===== src/Json/Access.antt =====
-- Reading a member by a name that the caller chose: `value[key]` and `key in value`, inherited members
-- included.
use Prim.Native.Char.{code}
use mcp_authz.Base.{
  ℕ, ◌+◌, ◌-◌, ◌*◌, Bool, true, false, not, ◌&&◌, ◌||◌, String, List, [], ◌∷◌, Option, none, some,
  leb, nat_eq, if◌then◌else◌, contains, lookup, is_some, ◌==◌,
}
use mcp_authz.Json.{Json, undefined, num, str, arr, obj, raw, builtin, Items, nil, cons, entries}

-- The members of `Object.prototype`.
abbrev pub object_members : List String
object_members =
    "constructor" ∷ "toString" ∷ "toLocaleString" ∷ "valueOf" ∷ "hasOwnProperty" ∷ "isPrototypeOf"
    ∷ "propertyIsEnumerable" ∷ "__proto__" ∷ "__defineGetter__" ∷ "__defineSetter__"
    ∷ "__lookupGetter__" ∷ "__lookupSetter__" ∷ []

-- Those of `Array.prototype` besides.
abbrev pub array_members : List String
array_members =
    "at" ∷ "concat" ∷ "copyWithin" ∷ "entries" ∷ "every" ∷ "fill" ∷ "filter" ∷ "find" ∷ "findIndex"
    ∷ "findLast" ∷ "findLastIndex" ∷ "flat" ∷ "flatMap" ∷ "forEach" ∷ "includes" ∷ "indexOf"
    ∷ "join" ∷ "keys" ∷ "lastIndexOf" ∷ "map" ∷ "pop" ∷ "push" ∷ "reduce" ∷ "reduceRight"
    ∷ "reverse" ∷ "shift" ∷ "slice" ∷ "some" ∷ "sort" ∷ "splice" ∷ "toReversed" ∷ "toSorted"
    ∷ "toSpliced" ∷ "unshift" ∷ "values" ∷ "with" ∷ []

abbrev is_digit : ℕ → Bool
is_digit c = leb b'0' c && leb c b'9'

digits_from : ℕ → String → Option ℕ
digits_from n String.[] = some n
digits_from n (String.◌∷◌ c s) =
    let rest = digits_from (n * 10 + (code c - b'0')) s in if is_digit (code c) then rest else none

-- An array's key: a number as it is printed, with no zero in front.
pub index? : String → Option ℕ
unfolding digits_from
index? String.[] = none
index? (String.◌∷◌ c s) =
    if nat_eq (code c) b'0' && not (s == "") then none else digits_from 0 (String.◌∷◌ c s)

item_at : Items → ℕ → Json
item_at nil i = undefined
item_at (cons v vs) ℕ.zero = v
item_at (cons v vs) (ℕ.suc i) = item_at vs i

-- The length, whose digits are never compared with anything.
abbrev array_length : Json
array_length = num "length"

inherited : List String → String → Json
inherited names k = if contains names k then builtin else undefined

array_member : Items → String → Json
unfolding item_at inherited contains
array_member vs k = elim (index? k) [
  | some i ↦ item_at vs i
  | none ↦
      if k == "length"
      then array_length
      else if contains array_members k
      then builtin
      else inherited object_members k
]

-- `value[key]` for a value that `typeof` calls an object. What is inherited stays built in, whatever
-- is read from it.
unfoldable pub member : Json → String → Json
unfolding array_member inherited contains lookup index?
member (obj fs) k = elim (lookup (entries fs) k) [ some v ↦ v | none ↦ inherited object_members k ]
member (arr vs) k = array_member vs k
member (raw t) k = if k == "rawJSON" then str t else undefined
member builtin k = builtin
member _ k = undefined

-- `typeof value === 'object' && value !== null`; an inherited member may be a prototype, and what is
-- read from one is again built in or absent.
abbrev pub is_object : Json → Bool
is_object (obj fs) = true
is_object (arr vs) = true
is_object (raw t) = true
is_object builtin = true
is_object _ = false

-- `key in claims`
unfoldable pub has_member : List (String × Json) → String → Bool
unfolding lookup contains
has_member fs k = is_some (lookup fs k) || contains object_members k
