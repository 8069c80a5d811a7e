-- ===== src/Scopes/Utf8.antt =====
-- UTF-8 as `new TextDecoder('utf-8', { fatal: true })` reads it: the decoder of the Encoding Standard,
-- with a byte order mark at the front dropped.
use mcp_authz.Base.{
  ℕ, zero, suc, ◌+◌, ◌-◌, ◌*◌, ◌&&◌, Bool, List, [], ◌∷◌, Option, none, some, leb, nat_eq,
  if◌then◌else◌,
}

-- How many bytes a character still needs, between which bounds the next one lies, and the bits so far.
pub record State : Type 0 where
  pub needed : ℕ
  pub lower : ℕ
  pub upper : ℕ
  pub point : ℕ

abbrev pub start : State
start = record { needed = 0; lower = 0x80; upper = 0xBF; point = 0 }

abbrev pub Step : Type 0
Step = Option (Option ℕ × State)

pub lead : ℕ → Step
lead b =
    if leb b 0x7F
    then some (some b, start)
    else if leb 0xC2 b && leb b 0xDF
    then some (none, record { needed = 1; lower = 0x80; upper = 0xBF; point = b - 0xC0 })
    else if leb 0xE0 b && leb b 0xEF
    then some (
      none,
      record {
        needed = 2;
        lower = if nat_eq b 0xE0 then 0xA0 else 0x80;
        upper = if nat_eq b 0xED then 0x9F else 0xBF;
        point = b - 0xE0;
      },
    )
    else if leb 0xF0 b && leb b 0xF4
    then some (
      none,
      record {
        needed = 3;
        lower = if nat_eq b 0xF0 then 0x90 else 0x80;
        upper = if nat_eq b 0xF4 then 0x8F else 0xBF;
        point = b - 0xF0;
      },
    )
    else none

pub continue : ℕ → State → ℕ → Step
continue left s b =
    if leb s.lower b && leb b s.upper
    then if nat_eq left 0
      then some (some (s.point * 64 + (b - 0x80)), start)
      else some (
        none,
        record { needed = left; lower = 0x80; upper = 0xBF; point = s.point * 64 + (b - 0x80) },
      )
    else none

pub step : State → ℕ → Step
unfolding lead continue
step s b = elim s.needed [ zero ↦ lead b | suc left ↦ continue left s b ]

abbrev pub emit : Option ℕ → Option (List ℕ) → Option (List ℕ)
emit none rest = rest
emit (some c) none = none
emit (some c) (some rest) = some (c ∷ rest)

-- A text that ends inside a character is refused.
pub decode_from : State → List ℕ → Option (List ℕ)
unfolding step
decode_from s [] = if nat_eq s.needed 0 then some [] else none
decode_from s (b ∷ bytes) = elim (step s b) [
  | none ↦ none
  | some (c, t) ↦ emit c (decode_from t bytes)
]

abbrev is_mark : ℕ → ℕ → ℕ → Bool
is_mark a b c = nat_eq a 0xEF && nat_eq b 0xBB && nat_eq c 0xBF

pub without_mark : List ℕ → List ℕ
without_mark (a ∷ b ∷ c ∷ bytes) = if is_mark a b c then bytes else a ∷ b ∷ c ∷ bytes
without_mark bytes = bytes

unfoldable pub decode_utf8 : List ℕ → Option (List ℕ)
unfolding decode_from without_mark
decode_utf8 bytes = decode_from start (without_mark bytes)
