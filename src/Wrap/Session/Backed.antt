-- ===== src/Wrap/Session/Backed.antt =====
-- Every tool that counts as checked has been listed with a definition that nothing is wrong with.
use mcp_authz.Base.{
  true, not, String, ◌≡◌, sym, subst, List, [], ◌++◌, none, some, inl, inr, In, In-filter,
  In-append_right, All, Option-cases, Bool-cases, filter, contains, contains_iff, insert_sound,
  ◌&&◌, lookup, ◌==◌,
}
use mcp_authz.Json.{Json}
use mcp_authz.Wrap.{Options, Outside, State, tool_name, drift, check, listed, is_reason}
use mcp_authz.Wrap.Client.Calm.{IsCall}
use mcp_authz.Wrap.Client.Waiting.{Waits}
use mcp_authz.Wrap.Server.Tame.{IsKept}

module _ (options : Options) where
  -- A tool that the server has listed under this name, and that is as it was approved.
  abbrev pub Matches : List Json → String → Type 0
  Matches seen name =
      (tool : Json) × In tool seen
      × (tool_name tool ≡ some (some name))
      × (drift options name tool ≡ none)

  abbrev pub IsBacked : List Json → State → Type 0
  IsBacked seen s = (name : String) → contains s.verified name ≡ true → Matches seen name

  pub IsBacked-same :
      (seen : List Json) (s t : State) → t.verified ≡ s.verified → IsBacked seen s → IsBacked seen t
  IsBacked-same seen s t e h name i =
      h name (subst (λ (v : List String). contains v name ≡ true) e i)

  pub IsBacked-wider :
      (seen more : List Json) (s : State) → IsBacked seen s → IsBacked (more ++ seen) s
  IsBacked-wider seen more s h name i =
      let (tool, there, named, same) = h name i in
      (tool, In-append_right tool more seen there, named, same)

  check-IsBacked :
      (seen : List Json) (s : State) (name : String) (tool : Json)
      → In tool seen
      → tool_name tool ≡ some (some name)
      → IsBacked seen s
      → IsBacked seen (check options s name tool).0
  unfolding check
  check-IsBacked seen s name tool there named h = elim (Option-cases (drift options name tool)) [
    | inl same ↦ rw same (λ other i.
        elim (insert_sound s.verified name other ((contains_iff _ other).0 i)) [
          | inl old ↦ h other ((contains_iff s.verified other).1 old)
          | inr e ↦ subst (Matches seen) e (tool, there, named, same)
        ])
    | inr (reason, e) ↦
        rw e
          (elim (Bool-cases
            (listed options name && not (is_reason options reason (lookup s.changed name)))) [
              | inl new ↦ rw new fewer
              | inr known ↦ rw known fewer
            ])
  ]
    where
      fewer :
          (other : String)
          → contains (filter (λ o. not (o == name)) s.verified) other ≡ true
          → Matches seen other
      fewer other i =
          let kept =
            (In-filter (λ o. not (o == name)) other s.verified).0 ((contains_iff _ other).0 i) in
          h other ((contains_iff s.verified other).1 kept.0)

  check-held :
      (s : State) (name : String) (tool : Json) → (check options s name tool).0.held ≡ s.held
  unfolding check
  check-held s name tool = elim (Option-cases (drift options name tool)) [
    | inl same ↦ rw same
    | inr (reason, e) ↦
        rw e
          (elim (Bool-cases
            (listed options name && not (is_reason options reason (lookup s.changed name)))) [
              | inl new ↦ rw new
              | inr known ↦ rw known
            ])
  ]

module _ (outside : Outside) (options : Options) where
  -- What is held are calls, and what counts as checked has been listed as it was approved.
  pub record IsKnown (seen : List Json) (s : State) : Type 0 where
    pub waits : Waits outside options s
    pub backed : IsBacked options seen s

  Waits-same : (s t : State) → t.held ≡ s.held → Waits outside options s → Waits outside options t
  Waits-same s t e = subst (All (IsCall outside options)) (sym e)

  pub IsKnown-IsKept : (seen : List Json) → IsKept options (IsKnown seen) (λ tool. In tool seen)
  IsKnown-IsKept seen = record {
    moved = λ s t e v known. record {
      waits = Waits-same s t e known.waits;
      backed = IsBacked-same options seen s t v known.backed;
    };
    cleared = λ s known. record {
      waits = known.waits;
      backed = λ name i. absurd ((contains_iff [] name).0 i);
    };
    checked = λ s name tool there named known. record {
      waits =
          Waits-same s (check options s name tool).0 (check-held options s name tool) known.waits;
      backed = check-IsBacked options seen s name tool there named known.backed;
    };
  }
