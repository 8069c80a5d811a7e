-- ===== src/Base/Lists.antt =====
-- Lists searched by Boolean tests, as `Array.prototype.filter`, `find`, `some` and `every` do.
use Prim.Native.Nat.{ℕ, zero, suc}
use mathlib.Core.Path.{◌≡◌, refl, ap, subst}
use mathlib.Core.Logic.{◌↔◌, ◌⊎◌, inl, inr}
use mathlib.Core.Bool.{Bool, true, false, ◌&&◌, ◌||◌}
use mathlib.Core.Option.{Option, none, some}
use mathlib.Core.List.{List, [], ◌∷◌, ◌++◌, map}
use native.Mathlib.Omega.{arith}
use mcp_authz.Base.Tests.{if◌then◌else◌, Bool-cases}

module _ {ℓ κ} {A : Type ℓ} (P : A → Type κ) where
  -- Every item satisfies `P`.
  abbrev pub All : List A → Type κ
  All [] = Unit
  All (x ∷ xs) = P x × All xs

module _ {A : Type 0} where
  -- `a` is one of the items.
  abbrev pub In : A → List A → Type 0
  In a [] = ⊥
  In a (x ∷ xs) = (x ≡ a) ⊎ In a xs

  -- No item stands twice.
  abbrev pub Distinct : List A → Type 0
  Distinct [] = Unit
  Distinct (x ∷ xs) = (¬ In x xs) × Distinct xs

module _ {ℓ} {A : Type ℓ} where
  abbrev pub length : List A → ℕ
  length [] = 0
  length (x ∷ xs) = suc (length xs)

  abbrev pub is_empty : List A → Bool
  is_empty [] = true
  is_empty (x ∷ xs) = false

  abbrev pub head? : List A → Option A
  head? [] = none
  head? (x ∷ xs) = some x

  -- `Array.prototype.filter`
  unfoldable pub filter : (A → Bool) → List A → List A
  filter p [] = []
  filter p (x ∷ xs) = let rest = filter p xs in if p x then x ∷ rest else rest

  -- `Array.prototype.find`
  unfoldable pub find : (A → Bool) → List A → Option A
  find p [] = none
  find p (x ∷ xs) = if p x then some x else find p xs

  -- `Array.prototype.some`
  unfoldable pub any : (A → Bool) → List A → Bool
  any p [] = false
  any p (x ∷ xs) = p x || any p xs

  -- `Array.prototype.every`
  unfoldable pub all : (A → Bool) → List A → Bool
  all p [] = true
  all p (x ∷ xs) = p x && all p xs

module _ {ℓ κ} {A : Type ℓ} {B : Type κ} where
  -- `Array.prototype.flatMap`
  unfoldable pub flat_map : (A → List B) → List A → List B
  flat_map f [] = []
  flat_map f (x ∷ xs) = f x ++ flat_map f xs

module _ {A : Type 0} where
  pub In-append_left : (a : A) (xs ys : List A) → In a xs → In a (xs ++ ys)
  In-append_left a [] ys h = absurd h
  In-append_left a (x ∷ xs) ys (inl e) = inl e
  In-append_left a (x ∷ xs) ys (inr h) = inr (In-append_left a xs ys h)

  pub In-append_right : (a : A) (xs ys : List A) → In a ys → In a (xs ++ ys)
  In-append_right a [] ys h = h
  In-append_right a (x ∷ xs) ys h = inr (In-append_right a xs ys h)

  pub In-append : (a : A) (xs ys : List A) → In a (xs ++ ys) → In a xs ⊎ In a ys
  In-append a [] ys h = inr h
  In-append a (x ∷ xs) ys (inl e) = inl (inl e)
  In-append a (x ∷ xs) ys (inr h) = elim (In-append a xs ys h) [
    | inl l ↦ inl (inr l)
    | inr r ↦ inr r
  ]

  pub filter_sound :
      (p : A → Bool) (a : A) (xs : List A) → In a (filter p xs) → In a xs × (p a ≡ true)
  unfolding filter
  filter_sound p a [] h = absurd h
  filter_sound p a (x ∷ xs) h = elim (Bool-cases (p x)) [
    | inl t ↦ elim (let k : In a (x ∷ filter p xs) = rw t at h in k) [
      | inl e ↦ (inl e, rw (← e) t)
      | inr i ↦ let (j, k) = filter_sound p a xs i in (inr j, k)
    ]
    | inr f ↦
        let i : In a (filter p xs) = rw f at h in let (j, k) = filter_sound p a xs i in (inr j, k)
  ]

  pub filter_complete :
      (p : A → Bool) (a : A) (xs : List A) → In a xs → p a ≡ true → In a (filter p xs)
  unfolding filter
  filter_complete p a [] h t = absurd h
  filter_complete p a (x ∷ xs) (inl e) t = rw (e, t) (inl refl)
  filter_complete p a (x ∷ xs) (inr i) t = elim (Bool-cases (p x)) [
    | inl u ↦ rw u (inr (filter_complete p a xs i t))
    | inr u ↦ rw u (filter_complete p a xs i t)
  ]

  pub In-filter :
      (p : A → Bool) (a : A) (xs : List A) → In a (filter p xs) ↔ (In a xs × (p a ≡ true))
  In-filter p a xs = (filter_sound p a xs, λ h. filter_complete p a xs h.0 h.1)

  pub find-eq-some :
      (p : A → Bool) (xs : List A) (a : A) → find p xs ≡ some a → In a xs × (p a ≡ true)
  unfolding find
  find-eq-some p [] a h = cc
  find-eq-some p (x ∷ xs) a h = elim (Bool-cases (p x)) [
    | inl t ↦ let e : x ≡ a = ground arith in (inl e, rw (← e) t)
    | inr f ↦ let (i, t) = find-eq-some p xs a (ground arith) in (inr i, t)
  ]

  pub find-eq-none : (p : A → Bool) (xs : List A) (a : A) → find p xs ≡ none → In a xs → p a ≡ false
  unfolding find
  find-eq-none p [] a h i = absurd i
  find-eq-none p (x ∷ xs) a h (inl e) = ground arith
  find-eq-none p (x ∷ xs) a h (inr i) = find-eq-none p xs a (ground arith) i

  pub any-eq-true :
      (p : A → Bool) (xs : List A) → any p xs ≡ true → (a : A) × In a xs × (p a ≡ true)
  unfolding any
  any-eq-true p [] h = cc
  any-eq-true p (x ∷ xs) h = elim (Bool-cases (p x)) [
    | inl t ↦ (x, inl refl, t)
    | inr f ↦ let (a, i, t) = any-eq-true p xs (ground arith) in (a, inr i, t)
  ]

  pub any_of_In : (p : A → Bool) (a : A) (xs : List A) → In a xs → p a ≡ true → any p xs ≡ true
  unfolding any
  any_of_In p a [] i h = absurd i
  any_of_In p a (x ∷ xs) (inl e) h = ground arith
  any_of_In p a (x ∷ xs) (inr i) h = ground (arith, any_of_In p a xs i h)

  pub any-eq-false : (p : A → Bool) (a : A) (xs : List A) → any p xs ≡ false → In a xs → p a ≡ false
  unfolding any
  any-eq-false p a [] h i = absurd i
  any-eq-false p a (x ∷ xs) h (inl e) = ground arith
  any-eq-false p a (x ∷ xs) h (inr i) = any-eq-false p a xs (ground arith) i

  pub all-eq-true : (p : A → Bool) (a : A) (xs : List A) → all p xs ≡ true → In a xs → p a ≡ true
  unfolding all
  all-eq-true p a [] h i = absurd i
  all-eq-true p a (x ∷ xs) h (inl e) = ground arith
  all-eq-true p a (x ∷ xs) h (inr i) = all-eq-true p a xs (ground arith) i

  pub In-All {κ} : (P : A → Type κ) (a : A) (xs : List A) → All P xs → In a xs → P a
  In-All P a [] h i = absurd i
  In-All P a (x ∷ xs) h (inl e) = subst P e h.0
  In-All P a (x ∷ xs) h (inr i) = In-All P a xs h.1 i

  pub All-of_In {κ} : (P : A → Type κ) (xs : List A) → ((a : A) → In a xs → P a) → All P xs
  All-of_In P [] h = tt
  All-of_In P (x ∷ xs) h = (h x (inl refl), All-of_In P xs (λ a i. h a (inr i)))

  pub All-append {κ} : (P : A → Type κ) (xs ys : List A) → All P xs → All P ys → All P (xs ++ ys)
  All-append P [] ys h k = k
  All-append P (x ∷ xs) ys h k = (h.0, All-append P xs ys h.1 k)

  pub eq-nil : (xs : List A) → ((a : A) → ¬ In a xs) → xs ≡ []
  eq-nil [] h = refl
  eq-nil (x ∷ xs) h = absurd (h x (inl refl))

module _ {A B : Type 0} where
  pub In-flat_map :
      (f : A → List B) (b : B) (xs : List A) → In b (flat_map f xs) → (a : A) × In a xs × In b (f a)
  unfolding flat_map
  In-flat_map f b [] h = absurd h
  In-flat_map f b (x ∷ xs) h = elim (In-append b (f x) (flat_map f xs) h) [
    | inl l ↦ (x, inl refl, l)
    | inr r ↦ let (a, i, j) = In-flat_map f b xs r in (a, inr i, j)
  ]

  pub flat_map_of_In :
      (f : A → List B) (b : B) (a : A) (xs : List A) → In a xs → In b (f a) → In b (flat_map f xs)
  unfolding flat_map
  flat_map_of_In f b a [] i j = absurd i
  flat_map_of_In f b a (x ∷ xs) (inl e) j = In-append_left b (f x) (flat_map f xs) (rw e j)
  flat_map_of_In f b a (x ∷ xs) (inr i) j =
      In-append_right b (f x) (flat_map f xs) (flat_map_of_In f b a xs i j)

  pub In-map : (f : A → B) (b : B) (xs : List A) → In b (map f xs) → (a : A) × In a xs × (f a ≡ b)
  In-map f b [] h = absurd h
  In-map f b (x ∷ xs) (inl e) = (x, inl refl, e)
  In-map f b (x ∷ xs) (inr h) = let (a, i, e) = In-map f b xs h in (a, inr i, e)

  pub map_of_In : (f : A → B) (a : A) (xs : List A) → In a xs → In (f a) (map f xs)
  map_of_In f a [] i = absurd i
  map_of_In f a (x ∷ xs) (inl e) = inl (ap f e)
  map_of_In f a (x ∷ xs) (inr h) = inr (map_of_In f a xs h)

module _ {ℓ} {A : Type ℓ} where
  abbrev pub get_elem? : List A → ℕ → Option A
  get_elem? [] i = none
  get_elem? (x ∷ xs) zero = some x
  get_elem? (x ∷ xs) (suc i) = get_elem? xs i
