-- ===== src/Base/Decimal.antt =====
-- A number in a template string.
use Prim.Native.Nat.{ℕ, zero, suc, ◌/◌, ◌%◌}
use Prim.Native.String.{String}
use mathlib.Core.List.{List, [], ◌∷◌}
use mcp_authz.Base.Tests.{ltb, or_else, if◌then◌else◌}
use mcp_authz.Base.Lists.{get_elem?}
use mcp_authz.Base.Texts.{◌^^◌}

digits : List String
digits = "0" ∷ "1" ∷ "2" ∷ "3" ∷ "4" ∷ "5" ∷ "6" ∷ "7" ∷ "8" ∷ "9" ∷ []

digit : ℕ → String
unfolding digits
digit n = or_else (get_elem? digits n) ""

-- The fuel is more than the number, so that every digit is reached.
decimal_from : ℕ → ℕ → String
unfolding digit
decimal_from zero n = ""
decimal_from (suc fuel) n =
    let front = decimal_from fuel (n / 10) in if ltb n 10 then digit n else front ^^ digit (n % 10)

-- `${n}`
unfoldable pub decimal : ℕ → String
unfolding decimal_from
decimal n = decimal_from (suc n) n
