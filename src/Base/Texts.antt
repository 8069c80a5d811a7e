-- ===== src/Base/Texts.antt =====
-- Sets and dictionaries of texts, as the source keeps them in `Set`, `Map` and plain objects: lists
-- without repeats, in insertion order.
use Prim.Native.Char.{code}
use Prim.Native.Nat.{ℕ}
use Prim.Native.String
use Prim.Native.String.{String}
use mathlib.Core.Path.{◌≡◌, refl, sym, ap, subst}
use mathlib.Core.Logic.{◌↔◌, ◌⊎◌, inl, inr}
use mathlib.Core.Bool.{Bool, true, false, ◌||◌}
use mathlib.Core.Option.{Option, none, some}
use mathlib.Core.List.{List, [], ◌∷◌, ◌++◌}
use native.Mathlib.Omega.{arith}
use text.Mathlib.Text.{◌==◌}
use text.Mathlib.TextEquality.{eq_iff}
use mcp_authz.Base.Tests.{if◌then◌else◌, nat_eq, Bool-cases}
use mcp_authz.Base.Lists.{In, Distinct, In-append, In-append_left, In-append_right}

-- `s + t`
infixl 65 ◌^^◌
abbrev pub ◌^^◌ : String → String → String
s ^^ t = String.◌++◌ s t

-- `xs.includes(s)`, `set.has(s)`
unfoldable pub contains : List String → String → Bool
contains [] s = false
contains (x ∷ xs) s = x == s || contains xs s

-- `set.add(s)`
unfoldable pub insert : List String → String → List String
insert xs s = if contains xs s then xs else xs ++ s ∷ []

unfoldable pub dedup_from : List String → List String → List String
dedup_from seen [] = seen
dedup_from seen (x ∷ xs) = dedup_from (insert seen x) xs

-- `[...new Set(xs)]`
unfoldable pub dedup : List String → List String
unfolding dedup_from insert contains
dedup xs = dedup_from [] xs

-- `map.get(k)` over the entries of a map or an object
unfoldable pub lookup {ℓ} : {V : Type ℓ} → List (String × V) → String → Option V
lookup [] k = none
lookup ((j, v) ∷ m) k = if j == k then some v else lookup m k

abbrev pub keys {ℓ} : {V : Type ℓ} → List (String × V) → List String
keys [] = []
keys ((k, v) ∷ m) = k ∷ keys m

-- `text.startsWith(prefix)`, with the rest of the text
unfoldable pub strip_prefix : String → String → Option String
strip_prefix String.[] s = some s
strip_prefix (String.◌∷◌ c p) String.[] = none
strip_prefix (String.◌∷◌ c p) (String.◌∷◌ d s) =
    if nat_eq (code c) (code d) then strip_prefix p s else none

-- `text.includes(c)`, for one character
unfoldable pub has_char : ℕ → String → Bool
has_char k String.[] = false
has_char k (String.◌∷◌ c s) = nat_eq (code c) k || has_char k s

contains_sound : (xs : List String) (s : String) → contains xs s ≡ true → In s xs
unfolding contains
contains_sound [] s h = cc
contains_sound (x ∷ xs) s h = elim (Bool-cases (x == s)) [
  | inl same ↦ inl ((eq_iff x s).0 same)
  | inr other ↦ inr (contains_sound xs s (ground arith))
]

contains_complete : (xs : List String) (s : String) → In s xs → contains xs s ≡ true
unfolding contains
contains_complete [] s h = absurd h
contains_complete (x ∷ xs) s (inl e) = ground (arith, eq_iff x s)
contains_complete (x ∷ xs) s (inr i) = ground (arith, contains_complete xs s i)

pub contains_iff : (xs : List String) (s : String) → (contains xs s ≡ true) ↔ In s xs
contains_iff xs s = (contains_sound xs s, contains_complete xs s)

pub contains-eq-false : (xs : List String) (s : String) → contains xs s ≡ false → ¬ In s xs
contains-eq-false xs s h i = cc (contains_complete xs s i)

pub insert_sound : (xs : List String) (s a : String) → In a (insert xs s) → In a xs ⊎ (s ≡ a)
unfolding insert
insert_sound xs s a h = elim (Bool-cases (contains xs s)) [
  | inl old ↦ inl (rw old at h)
  | inr new ↦ elim (In-append a xs (s ∷ []) (rw new at h)) [
    | inl i ↦ inl i
    | inr (inl e) ↦ inr e
    | inr (inr f) ↦ absurd f
  ]
]

pub insert_old : (xs : List String) (s a : String) → In a xs → In a (insert xs s)
unfolding insert
insert_old xs s a i = elim (Bool-cases (contains xs s)) [
  | inl old ↦ rw old i
  | inr new ↦ rw new (In-append_left a xs (s ∷ []) i)
]

pub insert_new : (xs : List String) (s : String) → In s (insert xs s)
unfolding insert
insert_new xs s = elim (Bool-cases (contains xs s)) [
  | inl old ↦ rw old (contains_sound xs s old)
  | inr new ↦ rw new (In-append_right s xs (s ∷ []) (inl refl))
]

dedup_from_sound :
    (seen xs : List String) (a : String) → In a (dedup_from seen xs) → In a seen ⊎ In a xs
unfolding dedup_from
dedup_from_sound seen [] a h = inl h
dedup_from_sound seen (x ∷ xs) a h = elim (dedup_from_sound (insert seen x) xs a h) [
  | inl i ↦ elim (insert_sound seen x a i) [ inl o ↦ inl o | inr e ↦ inr (inl e) ]
  | inr j ↦ inr (inr j)
]

dedup_from_old : (seen xs : List String) (a : String) → In a seen → In a (dedup_from seen xs)
unfolding dedup_from
dedup_from_old seen [] a i = i
dedup_from_old seen (x ∷ xs) a i = dedup_from_old (insert seen x) xs a (insert_old seen x a i)

dedup_from_new : (seen xs : List String) (a : String) → In a xs → In a (dedup_from seen xs)
unfolding dedup_from
dedup_from_new seen [] a i = absurd i
dedup_from_new seen (x ∷ xs) a (inl e) =
    dedup_from_old (insert seen x) xs a (subst (λ y. In y (insert seen x)) e (insert_new seen x))
dedup_from_new seen (x ∷ xs) a (inr i) = dedup_from_new (insert seen x) xs a i

pub In-dedup : (xs : List String) (a : String) → In a (dedup xs) ↔ In a xs
unfolding dedup
In-dedup xs a = (
  λ h. elim (dedup_from_sound [] xs a h) [ inl f ↦ absurd f | inr i ↦ i ],
  dedup_from_new [] xs a,
)

Distinct-snoc : (xs : List String) (s : String) → Distinct xs → ¬ In s xs → Distinct (xs ++ s ∷ [])
Distinct-snoc [] s d n = (λ h. h, tt)
Distinct-snoc (x ∷ xs) s d n = (
  λ h. elim (In-append x xs (s ∷ []) h) [
    | inl i ↦ d.0 i
    | inr (inl e) ↦ n (inl (sym e))
    | inr (inr f) ↦ f
  ],
  Distinct-snoc xs s d.1 (λ i. n (inr i)),
)

pub insert-Distinct : (xs : List String) (s : String) → Distinct xs → Distinct (insert xs s)
unfolding insert
insert-Distinct xs s d = elim (Bool-cases (contains xs s)) [
  | inl old ↦ rw old d
  | inr new ↦ rw new (Distinct-snoc xs s d (contains-eq-false xs s new))
]

dedup_from-Distinct : (seen xs : List String) → Distinct seen → Distinct (dedup_from seen xs)
unfolding dedup_from
dedup_from-Distinct seen [] d = d
dedup_from-Distinct seen (x ∷ xs) d =
    dedup_from-Distinct (insert seen x) xs (insert-Distinct seen x d)

pub dedup-Distinct : (xs : List String) → Distinct (dedup xs)
unfolding dedup
dedup-Distinct xs = dedup_from-Distinct [] xs tt

module _ {V : Type 0} where
  pub lookup_sound :
      (m : List (String × V)) (k : String) (v : V) → lookup m k ≡ some v → In (k, v) m
  unfolding lookup
  lookup_sound [] k v h = cc
  lookup_sound ((j, w) ∷ m) k v h = elim (Bool-cases (j == k)) [
    | inl same ↦ let e : w ≡ v = ground arith in inl (cc ((eq_iff j k).0 same))
    | inr other ↦ inr (lookup_sound m k v (ground arith))
  ]

  pub lookup-eq-none : (m : List (String × V)) (k : String) → lookup m k ≡ none → ¬ In k (keys m)
  unfolding lookup
  lookup-eq-none [] k h i = i
  lookup-eq-none ((j, w) ∷ m) k h (inl e) = ground (arith, eq_iff j k)
  lookup-eq-none ((j, w) ∷ m) k h (inr i) = lookup-eq-none m k (ground (arith, eq_iff j k)) i

  pub lookup-eq-some :
      (m : List (String × V)) (k : String) → In k (keys m) → (v : V) × (lookup m k ≡ some v)
  unfolding lookup
  lookup-eq-some [] k i = absurd i
  lookup-eq-some ((j, w) ∷ m) k (inl e) = (w, ground (arith, eq_iff j k))
  lookup-eq-some ((j, w) ∷ m) k (inr i) = elim (Bool-cases (j == k)) [
    | inl same ↦ (w, rw same)
    | inr other ↦ let (v, e) = lookup-eq-some m k i in (v, rw other e)
  ]

  pub In-keys : (m : List (String × V)) (k : String) (v : V) → In (k, v) m → In k (keys m)
  In-keys [] k v i = absurd i
  In-keys ((j, w) ∷ m) k v (inl e) = inl (ap (λ p. p.0) e)
  In-keys ((j, w) ∷ m) k v (inr i) = inr (In-keys m k v i)

  -- Over distinct keys `lookup` finds each entry.
  pub lookup_of_In :
      (m : List (String × V)) (k : String) (v : V)
      → Distinct (keys m)
      → In (k, v) m
      → lookup m k ≡ some v
  unfolding lookup
  lookup_of_In [] k v d i = absurd i
  lookup_of_In ((j, w) ∷ m) k v d (inl e) =
      let e0 : j ≡ k = ap (λ p. p.0) e in
      let e1 : w ≡ v = ap (λ p. p.1) e in ground (arith, eq_iff j k)
  lookup_of_In ((j, w) ∷ m) k v d (inr i) = elim (Bool-cases (j == k)) [
    | inl same ↦
        absurd (d.0 (subst (λ s. In s (keys m)) (sym ((eq_iff j k).0 same)) (In-keys m k v i)))
    | inr other ↦ rw other (lookup_of_In m k v d.1 i)
  ]
