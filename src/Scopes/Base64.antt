-- ===== src/Scopes/Base64.antt =====
-- Base64 as scopes.ts accepts it, `CANONICAL_BASE64` and `atob` together: whole groups of four, the
-- last one padded, no other character. Bits past the last byte are dropped.
use mcp_authz.Base.{
  ℕ, ◌+◌, ◌-◌, ◌*◌, ◌/◌, ◌%◌, ◌&&◌, List, [], ◌∷◌, ◌++◌, Option, none, some, leb, nat_eq,
  if◌then◌else◌,
}

unfoldable pub sextet : ℕ → Option ℕ
sextet c =
    if leb b'A' c && leb c b'Z'
    then some (c - 65)
    else if leb b'a' c && leb c b'z'
    then some (c - 71)
    else if leb b'0' c && leb c b'9'
    then some (c + 4)
    else if nat_eq c b'+'
    then some 62
    else if nat_eq c b'/'
    then some 63
    else none

abbrev pub first_byte : ℕ → ℕ → ℕ
first_byte a b = a * 4 + b / 16

abbrev pub second_byte : ℕ → ℕ → ℕ
second_byte b c = b % 16 * 16 + c / 4

abbrev pub third_byte : ℕ → ℕ → ℕ
third_byte c d = c % 4 * 64 + d

abbrev join : Option (List ℕ) → Option (List ℕ) → Option (List ℕ)
join none rest = none
join (some bytes) none = none
join (some bytes) (some more) = some (bytes ++ more)

abbrev pub one_byte : Option ℕ → Option ℕ → Option (List ℕ)
one_byte (some a) (some b) = some (first_byte a b ∷ [])
one_byte (some a) none = none
one_byte none b = none

abbrev pub two_bytes : Option ℕ → Option ℕ → Option ℕ → Option (List ℕ)
two_bytes (some a) (some b) (some c) = some (first_byte a b ∷ second_byte b c ∷ [])
two_bytes (some a) (some b) none = none
two_bytes (some a) none c = none
two_bytes none b c = none

abbrev pub three_bytes : Option ℕ → Option ℕ → Option ℕ → Option ℕ → Option (List ℕ)
three_bytes (some a) (some b) (some c) (some d) =
    some (first_byte a b ∷ second_byte b c ∷ third_byte c d ∷ [])
three_bytes (some a) (some b) (some c) none = none
three_bytes (some a) (some b) none d = none
three_bytes (some a) none c d = none
three_bytes none b c d = none

-- A last group may be padded.
pub last_group : ℕ → ℕ → ℕ → ℕ → Option (List ℕ)
unfolding sextet
last_group a b c d =
    if nat_eq d b'='
    then if nat_eq c b'='
      then one_byte (sextet a) (sextet b)
      else two_bytes (sextet a) (sextet b) (sextet c)
    else three_bytes (sextet a) (sextet b) (sextet c) (sextet d)

unfoldable pub decode64 : List ℕ → Option (List ℕ)
unfolding last_group sextet
decode64 [] = some []
decode64 (a ∷ b ∷ c ∷ d ∷ []) = last_group a b c d
decode64 (a ∷ b ∷ c ∷ d ∷ e ∷ rest) =
    join (three_bytes (sextet a) (sextet b) (sextet c) (sextet d)) (decode64 (e ∷ rest))
decode64 _ = none
