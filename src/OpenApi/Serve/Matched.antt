-- ===== src/OpenApi/Serve/Matched.antt =====
-- Which of the operations that match a request its route is taken from.
use mcp_authz.Base.{
  ℕ, Bool, true, false, ◌&&◌, ◌||◌, String, ◌≡◌, refl, ap, subst, ◌⊎◌, inl, inr, ◌↔◌, List, [], ◌∷◌,
  Option, none, some, In, All, In-All, All-of_In, Bool-cases, nat_eq, ltb, find, find-eq-some,
  find-eq-none, ◌==◌, arith,
}
use mcp_authz.OpenApi.{Operation}
use mcp_authz.OpenApi.Routes.{precedes, template_count, place, sort_routes, matches}
use mcp_authz.OpenApi.Serve.{Api, Call, matched}
use mcp_authz.Wrap.{units}

-- Fewer templates first, then the longer path.
abbrev ranks : ℕ → ℕ → ℕ → ℕ → Bool
ranks t l u k = ltb t u || (nat_eq t u && ltb k l)

ranks_asym : (t l u k : ℕ) → ranks t l u k ≡ true → ranks u k t l ≡ false
ranks_asym t l u k h = ground arith

ranks_apart :
    (t l u k v m : ℕ) → ranks t l u k ≡ false → ranks u k v m ≡ false → ranks t l v m ≡ false
ranks_apart t l u k v m h g = ground arith

ranks_self : (t l : ℕ) → ranks t l t l ≡ false
ranks_self t l = ground arith

precedes_asym : (a b : Operation) → precedes a b ≡ true → precedes b a ≡ false
unfolding precedes
precedes_asym a b h =
    ranks_asym (template_count a.path) (units a.path) (template_count b.path) (units b.path) h

precedes_apart :
    (a b c : Operation) → precedes a b ≡ false → precedes b c ≡ false → precedes a c ≡ false
unfolding precedes
precedes_apart a b c h g =
    ranks_apart (template_count a.path) (units a.path) (template_count b.path) (units b.path)
      (template_count c.path) (units c.path) h g

precedes_self : (a : Operation) → precedes a a ≡ false
unfolding precedes
precedes_self a = ranks_self (template_count a.path) (units a.path)

-- No later route precedes an earlier one.
abbrev IsSorted : List Operation → Type 0
IsSorted [] = Unit
IsSorted (a ∷ rest) = All (λ (b : Operation). precedes b a ≡ false) rest × IsSorted rest

In-place : (o a : Operation) (l : List Operation) → In o (place a l) ↔ ((a ≡ o) ⊎ In o l)
unfolding place
In-place o a [] = (λ i. i, λ i. i)
In-place o a (b ∷ rest) = elim (Bool-cases (precedes b a)) [
  | inl before ↦
      let later = In-place o a rest in
      rw before (
        λ i. elim i [
          | inl e ↦ inr (inl e)
          | inr j ↦ elim (later.0 j) [ inl e ↦ inl e | inr k ↦ inr (inr k) ]
        ],
        λ i. elim i [
          | inl e ↦ inr (later.1 (inl e))
          | inr (inl e) ↦ inl e
          | inr (inr k) ↦ inr (later.1 (inr k))
        ],
      )
  | inr after ↦ rw after (λ i. i, λ i. i)
]

In-sort_routes : (o : Operation) (l : List Operation) → In o (sort_routes l) ↔ In o l
unfolding sort_routes
In-sort_routes o [] = (λ i. i, λ i. i)
In-sort_routes o (a ∷ rest) =
    let placed = In-place o a (sort_routes rest) in
    let sorted = In-sort_routes o rest in
    (
      λ i. elim (placed.0 i) [ inl e ↦ inl e | inr j ↦ inr (sorted.0 j) ],
      λ i. placed.1 (elim i [ inl e ↦ inl e | inr j ↦ inr (sorted.1 j) ]),
    )

place-IsSorted : (a : Operation) (l : List Operation) → IsSorted l → IsSorted (place a l)
unfolding place
place-IsSorted a [] sorted = (tt, tt)
place-IsSorted a (b ∷ rest) sorted = elim (Bool-cases (precedes b a)) [
  | inl before ↦ rw before (
    All-of_In (λ (c : Operation). precedes c b ≡ false) (place a rest)
        (λ c i. elim ((In-place c a rest).0 i) [
          | inl e ↦ subst (λ (o : Operation). precedes o b ≡ false) e (precedes_asym b a before)
          | inr j ↦ In-All (λ (o : Operation). precedes o b ≡ false) c rest sorted.0 j
        ]),
    place-IsSorted a rest sorted.1,
  )
  | inr after ↦ rw after (
    (
      after,
      All-of_In (λ (c : Operation). precedes c a ≡ false) rest
          (λ c i.
            precedes_apart c b a
              (In-All (λ (o : Operation). precedes o b ≡ false) c rest sorted.0 i) after),
    ),
    sorted,
  )
]

sort_routes-IsSorted : (l : List Operation) → IsSorted (sort_routes l)
unfolding sort_routes
sort_routes-IsSorted [] = tt
sort_routes-IsSorted (a ∷ rest) = place-IsSorted a (sort_routes rest) (sort_routes-IsSorted rest)

-- What is found first in a sorted list is preceded by no other that could have been.
find-first :
    (p : Operation → Bool) (l : List Operation) (o c : Operation)
    → IsSorted l
    → find p l ≡ some o
    → In c l
    → p c ≡ true
    → precedes c o ≡ false
unfolding find
find-first p [] o c sorted e i t = absurd i
find-first p (x ∷ rest) o c sorted e i t = elim (Bool-cases (p x)) [
  | inl fits ↦
      let same : x ≡ o = ground arith in
      elim i [
        | inl here ↦ rw (← same, ← here) (precedes_self x)
        | inr j ↦ rw (← same) (In-All (λ (b : Operation). precedes b x ≡ false) c rest sorted.0 j)
      ]
  | inr apart ↦ elim i [
    | inl here ↦ cc (ap p here)
    | inr j ↦ find-first p rest o c sorted.1 (ground arith) j t
  ]
]

module _ (api : Api) (call : Call) (route : String) where
  -- An operation of the request's method whose path the route fits.
  abbrev answers : Operation → Bool
  answers o = o.method == api.lower call.method && matches o.path route

  -- No operation answers, or this one does, and none that answers has fewer templates in its path, or as many and a
  -- longer path.
  abbrev pub IsMostSpecific : Option Operation → Type 0
  IsMostSpecific none = (other : Operation) → In other api.operations → answers other ≡ false
  IsMostSpecific (some o) =
      In o api.operations
      × (answers o ≡ true)
      × ((other : Operation)
          → In other api.operations
          → answers other ≡ true
          → precedes other o ≡ false)

  most_specific :
      (found : Option Operation)
      → find answers (sort_routes api.operations) ≡ found
      → IsMostSpecific found
  most_specific none e =
      λ other i. find-eq-none answers _ other e ((In-sort_routes other api.operations).1 i)
  most_specific (some o) e =
      let (i, t) = find-eq-some answers _ o e in
      (
        (In-sort_routes o api.operations).0 i,
        t,
        λ other j u.
            find-first answers _ o other (sort_routes-IsSorted api.operations) e
              ((In-sort_routes other api.operations).1 j) u,
      )

  -- A request is matched by an operation of its method whose path its route fits, in whatever order the document
  -- describes them, and by one that none such precedes: none has fewer templates in its path, or as many and a longer
  -- path. It is matched by nothing exactly where there is none.
  pub matched-IsMostSpecific : IsMostSpecific (matched api call route)
  unfolding matched
  matched-IsMostSpecific = most_specific _ refl
