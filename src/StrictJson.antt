-- ===== src/StrictJson.antt =====
-- strict-json.ts: whether a body repeats a key, found by one pass over its text, and whether a value
-- holds a number that no double equals.
mod Tests
use mcp_authz.Base.{
  ℕ, ◌+◌, ◌-◌, ◌*◌, ◌/◌, ◌%◌, Bool, true, false, ◌&&◌, ◌||◌, String, List, [], ◌∷◌, ◌++◌, nat_eq,
  leb, ltb, if◌then◌else◌,
}
use mcp_authz.Base.Chars.{codes}
use mcp_authz.Json.{Json, arr, obj, raw, Items, nil, cons, Fields, end, field}

-- A key as JSON.parse reads it: its UTF-16 units.
abbrev pub Key : Type 0
Key = List ℕ

abbrev pub same_key : Key → Key → Bool
same_key [] [] = true
same_key (a ∷ k) (b ∷ l) = nat_eq a b && same_key k l
same_key _ _ = false

pub has_key : List Key → Key → Bool
has_key [] k = false
has_key (j ∷ ks) k = same_key j k || has_key ks k

-- The open brackets, innermost first: an object with the keys it has had, or an array.
pub data Scope : Type 0 where
  in_object : List Key → Scope
  in_array : Scope

-- Where the scan stands. `text` and the two after it hold the units of a string that began in the code;
-- `closed` holds a string that has ended, until what follows shows whether it was a key.
pub data Mode : Type 0 where
  between : Mode
  text : Key → Mode
  escape : Key → Mode
  unicode : ℕ → ℕ → Key → Mode
  closed : Key → Mode

pub record Scan : Type 0 where
  pub scopes : List Scope
  pub mode : Mode
  pub repeated : Bool

units : ℕ → Key
units c =
    if ltb c 0x10000
    then c ∷ []
    else (0xD800 + (c - 0x10000) / 0x400) ∷ (0xDC00 + (c - 0x10000) % 0x400) ∷ []

-- The unit that `\` and a letter stand for.
escaped : ℕ → ℕ
escaped c =
    if nat_eq c b'n'
    then 10
    else if nat_eq c b't'
    then 9
    else if nat_eq c b'r'
    then 13
    else if nat_eq c b'b'
    then 8
    else if nat_eq c b'f'
    then 12
    else c

hex : ℕ → ℕ
hex c = if leb c b'9' then c - b'0' else if leb c b'F' then c - 55 else c - 87

abbrev is_blank : ℕ → Bool
is_blank c = nat_eq c 32 || nat_eq c 9 || nat_eq c 13 || nat_eq c 10

abbrev pop : List Scope → List Scope
pop [] = []
pop (s ∷ rest) = rest

-- A character outside a string.
open_char : List Scope → ℕ → Scan
open_char scopes c =
    if nat_eq c b'{'
    then record { scopes = in_object [] ∷ scopes; mode = between; repeated = false }
    else if nat_eq c b'['
    then record { scopes = in_array ∷ scopes; mode = between; repeated = false }
    else if nat_eq c b'}' || nat_eq c b']'
    then record { scopes = pop scopes; mode = between; repeated = false }
    else if nat_eq c b'"'
    then record { scopes = scopes; mode = text []; repeated = false }
    else record { scopes = scopes; mode = between; repeated = false }

-- `scope.has(key)` and `scope.add(key)`, where the innermost bracket is an object.
add_key : List Scope → Key → Scan
add_key (in_object keys ∷ rest) key = record {
  scopes = in_object (key ∷ keys) ∷ rest;
  mode = between;
  repeated = has_key keys key;
}
add_key scopes key = record { scopes = scopes; mode = between; repeated = false }

abbrev going : List Scope → Mode → Scan
going scopes mode = record { scopes = scopes; mode = mode; repeated = false }

step : List Scope → Mode → ℕ → Scan
step scopes between c = open_char scopes c
step scopes (text key) c =
    if nat_eq c b'"'
    then going scopes (closed key)
    else if nat_eq c b'\\'
    then going scopes (escape key)
    else going scopes (text (key ++ units c))
step scopes (escape key) c =
    if nat_eq c b'u'
    then going scopes (unicode 4 0 key)
    else going scopes (text (key ++ escaped c ∷ []))
step scopes (unicode left value key) c =
    if leb left 1
    then going scopes (text (key ++ (value * 16 + hex c) ∷ []))
    else going scopes (unicode (left - 1) (value * 16 + hex c) key)
step scopes (closed key) c =
    if is_blank c
    then going scopes (closed key)
    else if nat_eq c b':'
    then add_key scopes key
    else open_char scopes c

scan : List Scope → Mode → List ℕ → Bool
scan scopes mode [] = false
scan scopes mode (c ∷ rest) =
    let next = step scopes mode c in
    let later = scan next.scopes next.mode rest in if next.repeated then true else later

unfoldable pub has_duplicate_key : String → Bool
unfolding scan step add_key open_char units escaped hex has_key codes
has_duplicate_key body = scan [] between (codes body)

-- `holdsInexactNumber`: some part of the value is the raw text of a number.
unfoldable mutual
  pub holds_inexact_number : Json → Bool
  holds_inexact_number (raw t) = true
  holds_inexact_number (arr vs) = any_inexact vs
  holds_inexact_number (obj fs) = any_field_inexact fs
  holds_inexact_number v = false

  pub any_inexact : Items → Bool
  any_inexact nil = false
  any_inexact (cons v vs) = holds_inexact_number v || any_inexact vs

  pub any_field_inexact : Fields → Bool
  any_field_inexact end = false
  any_field_inexact (field k v fs) = holds_inexact_number v || any_field_inexact fs
