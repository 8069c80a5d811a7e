-- ===== src/OpenApi/Routes.antt =====
-- openapi.ts: the order in which routes are tried, and what a path template matches.
use mcp_authz.Base.{
  ℕ, ◌+◌, Bool, true, false, not, ◌&&◌, ◌||◌, String, List, [], ◌∷◌, ◌++◌, nat_eq, ltb, is_empty,
  if◌then◌else◌,
}
use mcp_authz.Base.Chars.{codes}
use mcp_authz.Wrap.{units}
use mcp_authz.OpenApi.{Operation}

unfoldable pub count_char : ℕ → List ℕ → ℕ
count_char c [] = 0
count_char c (d ∷ ds) = (if nat_eq d c then 1 else 0) + count_char c ds

-- `templateCount`
unfoldable pub template_count : String → ℕ
template_count path = count_char b'{' (codes path)

-- Whether the route of `a` is tried before that of `b`, whatever their order in the document.
unfoldable pub precedes : Operation → Operation → Bool
precedes a b =
    ltb (template_count a.path) (template_count b.path)
    || (nat_eq (template_count a.path) (template_count b.path) && ltb (units b.path) (units a.path))

unfoldable pub place : Operation → List Operation → List Operation
place a [] = a ∷ []
place a (b ∷ rest) = let later = place a rest in if precedes b a then b ∷ later else a ∷ b ∷ rest

-- `routes`
unfoldable pub sort_routes : List Operation → List Operation
sort_routes [] = []
sort_routes (a ∷ rest) = place a (sort_routes rest)

-- `text.split('/')`
unfoldable pub segments_from : List ℕ → List ℕ → List (List ℕ)
segments_from before [] = before ∷ []
segments_from before (c ∷ cs) =
    let next = segments_from [] cs in
    let longer = segments_from (before ++ c ∷ []) cs in
    if nat_eq c b'/' then before ∷ next else longer

unfoldable pub segments : String → List (List ℕ)
segments text = segments_from [] (codes text)

-- What stands before a closing brace that ends it, where there is no other brace.
unfoldable pub plain_to_close : List ℕ → Bool
plain_to_close [] = false
plain_to_close (c ∷ []) = nat_eq c b'}'
plain_to_close (c ∷ d ∷ cs) = not (nat_eq c b'{' || nat_eq c b'}') && plain_to_close (d ∷ cs)

-- `/^\{[^{}]+\}$/`
unfoldable pub is_template : List ℕ → Bool
is_template [] = false
is_template (c ∷ []) = false
is_template (c ∷ d ∷ cs) = nat_eq c b'{' && (not (nat_eq d b'}') && plain_to_close (d ∷ cs))

abbrev pub same_codes : List ℕ → List ℕ → Bool
same_codes [] [] = true
same_codes (a ∷ k) (b ∷ l) = nat_eq a b && same_codes k l
same_codes _ _ = false

-- One segment of a template, and of a path.
unfoldable pub fits : List ℕ → List ℕ → Bool
fits template segment =
    if is_template template then not (is_empty segment) else same_codes template segment

unfoldable pub fit_all : List (List ℕ) → List (List ℕ) → Bool
fit_all [] [] = true
fit_all (t ∷ ts) (s ∷ ss) = fits t s && fit_all ts ss
fit_all _ _ = false

-- `matcher(template).test(route)`
unfoldable pub matches : String → String → Bool
matches template route = fit_all (segments template) (segments route)
