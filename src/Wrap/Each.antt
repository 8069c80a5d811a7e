-- ===== src/Wrap/Each.antt =====
-- What holds of one tool after another holds of a whole listing.
use mcp_authz.Base.{
  String, ◌≡◌, List, [], ◌∷◌, ◌++◌, Option, some, and_then-eq-some, eq_of_some, subst,
}
use mcp_authz.Json.{Json}
use mcp_authz.Wrap.{State, Act, tool_name, for_each}

module _ (handle : State → Option String → Json → State × List Act) where
  for_each-cons :
      (s : State) (tool : Json) (tools : List Json) (r : State × List Act)
      → for_each handle s (tool ∷ tools) ≡ some r
      → (name : Option String) × (tool_name tool ≡ some name)
        × (q : State × List Act) × (for_each handle (handle s name tool).0 tools ≡ some q)
        × ((q.0, (handle s name tool).1 ++ q.1) ≡ r)
  unfolding for_each
  for_each-cons s tool tools r e =
      let (name, named, e') = and_then-eq-some (tool_name tool) _ e in
      let (q, done, e'') = and_then-eq-some (for_each handle (handle s name tool).0 tools) _ e' in
      (name, named, q, done, eq_of_some e'')

  -- The rule of such a loop.
  pub for_each_rule :
      (R : State → List Json → State × List Act → Type 0)
      → ((s : State) → R s [] (s, []))
      → ((s : State) (name : Option String) (tool : Json) (tools : List Json) (q : State × List Act)
          → tool_name tool ≡ some name
          → R (handle s name tool).0 tools q
          → R s (tool ∷ tools) (q.0, (handle s name tool).1 ++ q.1))
      → (s : State) (tools : List Json) (r : State × List Act) → for_each handle s tools ≡ some r
      → R s tools r
  unfolding for_each
  for_each_rule R nothing one s [] r e = let h : (s, []) ≡ r = cc in subst (R s []) h (nothing s)
  for_each_rule R nothing one s (tool ∷ tools) r e =
      let (name, named, q, done, same) = for_each-cons s tool tools r e in
      subst (R s (tool ∷ tools)) same (
        one s name tool tools q named
          (for_each_rule R nothing one (handle s name tool).0 tools q done))
