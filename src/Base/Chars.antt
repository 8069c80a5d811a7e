-- ===== src/Base/Chars.antt =====
-- Texts as lists of code points, and back.
use Prim.Native.Nat.{ℕ, compare, Ordering}
use Prim.Native.Char.{Char, char, code, IsLt, IsScalar}
use Prim.Native.String.{String}
use mathlib.Core.Path.{◌≡◌, refl, ap}
use mathlib.Core.Option.{Option, none, some}
use mathlib.Core.List.{List, [], ◌∷◌}

abbrev IsBetween : Ordering → Ordering → Type 0
IsBetween Ordering.lt o = IsLt o
IsBetween Ordering.eq o = ⊥
IsBetween Ordering.gt o = ⊥

abbrev IsPlaced : Ordering → Ordering → Ordering → Type 0
IsPlaced Ordering.lt o p = Unit
IsPlaced Ordering.eq o p = IsBetween o p
IsPlaced Ordering.gt o p = IsBetween o p

is_lt? : (o : Ordering) → Option (IsLt o)
is_lt? Ordering.lt = some tt
is_lt? Ordering.eq = none
is_lt? Ordering.gt = none

both? : (o p : Ordering) → Option (IsBetween o p)
both? Ordering.lt p = is_lt? p
both? Ordering.eq p = none
both? Ordering.gt p = none

scalar? : (o p q : Ordering) → Option (IsPlaced o p q)
scalar? Ordering.lt p q = some tt
scalar? Ordering.eq p q = both? p q
scalar? Ordering.gt p q = both? p q

abbrev with_proof : (n : ℕ) → Option (IsScalar n) → Option Char
with_proof n none = none
with_proof n (some p) = some (char n p)

-- The character with this number; a surrogate, or a number past the last one, has none.
unfoldable pub char_of? : ℕ → Option Char
unfolding is_lt? both? scalar?
char_of? n = with_proof n (scalar? (compare n 55296) (compare 57343 n) (compare n 1114112))

unfoldable pub codes : String → List ℕ
codes String.[] = []
codes (String.◌∷◌ c s) = code c ∷ codes s

abbrev cons? : Option Char → Option String → Option String
cons? none s = none
cons? (some c) none = none
cons? (some c) (some s) = some (String.◌∷◌ c s)

unfoldable pub text_of? : List ℕ → Option String
unfolding char_of?
text_of? [] = some ""
text_of? (n ∷ ns) = cons? (char_of? n) (text_of? ns)

is_lt?_total : (o : Ordering) (p : IsLt o) → is_lt? o ≡ some p
unfolding is_lt?
is_lt?_total Ordering.lt p = refl
is_lt?_total Ordering.eq p = absurd p
is_lt?_total Ordering.gt p = absurd p

both?_total : (o p : Ordering) (h : IsBetween o p) → both? o p ≡ some h
unfolding both?
both?_total Ordering.lt p h = is_lt?_total p h
both?_total Ordering.eq p h = absurd h
both?_total Ordering.gt p h = absurd h

scalar?_total : (o p q : Ordering) (h : IsPlaced o p q) → scalar? o p q ≡ some h
unfolding scalar?
scalar?_total Ordering.lt p q h = refl
scalar?_total Ordering.eq p q h = both?_total p q h
scalar?_total Ordering.gt p q h = both?_total p q h

pub char_of?-code : (c : Char) → char_of? (code c) ≡ some c
unfolding char_of?
char_of?-code (char n h) =
    ap (with_proof n) (scalar?_total (compare n 55296) (compare 57343 n) (compare n 1114112) h)

-- A text is its code points.
pub text_of?-codes : (s : String) → text_of? (codes s) ≡ some s
unfolding text_of? codes
text_of?-codes String.[] = refl
text_of?-codes (String.◌∷◌ c s) = rw (char_of?-code c, text_of?-codes s)
