-- ===== src/Wrap/Server/Shown.antt =====
-- Which tools of a listing the client is shown.
use mcp_authz.Base.{
  Bool, true, false, not, ◌&&◌, String, ◌≡◌, refl, sym, ap, ◌∙◌, ◌≢◌, ◌↔◌, List, [], ◌∷◌, Option,
  none, some, inl, inr, In, In-filter, Bool-cases, Option-cases, and_then-eq-some, eq_of_some,
  filter, lookup, put, lookup-put, lookup-put_other, lookup-remove, lookup-remove_other, is_some,
  or_option, if◌then◌else◌, ◌==◌, eq_iff, eq_refl, unequal, arith,
}
use mcp_authz.Json.{Json, arr, obj, of_items, of_entries, own}
use mcp_authz.Wrap.{
  Options, Outside, State, Act, tool_name, is_reason, listed, visible, drift, check,
  estimate_tokens, text_of, is_truthy,
}
use mcp_authz.Wrap.Each.{for_each_rule}
use mcp_authz.Wrap.Server.{
  see_named, see_all, is_shown, reported_if, report, report_lines, Passing, filter_listing,
}

abbrev is_named : String → Option (Option String) → Bool
is_named name (some (some other)) = other == name
is_named name _ = false

-- The last tool of a listing that has this name.
abbrev pub last_named : String → List Json → Option Json
last_named name [] = none
last_named name (tool ∷ tools) =
    or_option (last_named name tools) (if is_named name (tool_name tool) then some tool else none)

module _ (options : Options) (name : String) (wanted : listed options name ≡ true) where
  is_reason-eq-true :
      (reason : String) (o : Option String) → is_reason options reason o ≡ true → o ≡ some reason
  is_reason-eq-true reason none h = cc
  is_reason-eq-true reason (some old) h = ap some ((eq_iff old reason).0 h)

  changed-check :
      (s : State) (tool : Json)
      → lookup (check options s name tool).0.changed name ≡ drift options name tool
  unfolding check
  changed-check s tool = elim (Option-cases (drift options name tool)) [
    | inl same ↦ rw same (lookup-remove s.changed name)
    | inr (reason, e) ↦
        rw (e, wanted)
          (elim (Bool-cases (is_reason options reason (lookup s.changed name))) [
            | inl known ↦ rw known (is_reason-eq-true reason (lookup s.changed name) known)
            | inr new ↦ rw new (lookup-put s.changed name reason)
          ])
  ]

  changed-check_other :
      (s : State) (other : String) (tool : Json)
      → name ≢ other
      → lookup (check options s other tool).0.changed name ≡ lookup s.changed name
  unfolding check
  changed-check_other s other tool n = elim (Option-cases (drift options other tool)) [
    | inl same ↦ rw same (lookup-remove_other s.changed other name n)
    | inr (reason, e) ↦
        rw e
          (elim (Bool-cases
            (listed options other && not (is_reason options reason (lookup s.changed other)))) [
              | inl new ↦ rw new (lookup-put_other s.changed other reason name n)
              | inr known ↦ rw known
            ])
  ]

  -- What is known of a name after a listing that has it: what is wrong with its last definition.
  changed_after : Option Json → Option String → Option String
  changed_after none before = before
  changed_after (some last) before = drift options name last

  one_more :
      (later : Option Json) (before after : Option String) (b : Bool) (tool : Json)
      → (b ≡ true → after ≡ drift options name tool)
      → (b ≡ false → after ≡ before)
      → changed_after later after
        ≡ changed_after (or_option later (if b then some tool else none)) before
  unfolding changed_after
  one_more (some last) before after b tool h k = refl
  one_more none before after true tool h k = h refl
  one_more none before after false tool h k = k refl

module _ (outside : Outside) (options : Options) (name : String)
    (wanted : listed options name ≡ true) where
  changed-see_all :
      (s : State) (tools : List Json) (r : State × List Act)
      → see_all outside options s tools ≡ some r
      → lookup r.0.changed name
        ≡ changed_after options name wanted (last_named name tools) (lookup s.changed name)
  unfolding see_all changed_after
  changed-see_all =
      for_each_rule (see_named outside options)
        (λ s tools r.
          lookup r.0.changed name
          ≡ changed_after options name wanted (last_named name tools) (lookup s.changed name))
        (λ s. refl)
        (λ s o tool tools q named rest.
          rest
          ∙ rw named (
              one_more options name wanted (last_named name tools) _ _ _ tool (hit s o tool)
                (miss s o tool)))
    where
      hit :
          (s : State) (o : Option String) (tool : Json)
          → is_named name (some o) ≡ true
          → lookup (see_named outside options s o tool).0.changed name ≡ drift options name tool
      hit s none tool e = cc
      hit s (some other) tool e =
          let same : other ≡ name = (eq_iff other name).0 e in
          rw same (
            changed-check options name wanted
              (record s { seen = put s.seen name (estimate_tokens tool) }) tool)

      miss :
          (s : State) (o : Option String) (tool : Json)
          → is_named name (some o) ≡ false
          → lookup (see_named outside options s o tool).0.changed name ≡ lookup s.changed name
      miss s none tool e = refl
      miss s (some other) tool e =
          changed-check_other options name wanted _ other tool
            (λ same. unequal other name e (sym same))

  -- A listed name is shown exactly when nothing is wrong with the last definition of the listing under it.
  visible-see_all :
      (s : State) (tools : List Json) (r : State × List Act) (last : Json)
      → see_all outside options s tools ≡ some r
      → last_named name tools ≡ some last
      → (visible options r.0 name ≡ true) ↔ (drift options name last ≡ none)
  unfolding visible changed_after
  visible-see_all s tools r last e found =
      let now : lookup r.0.changed name ≡ drift options name last =
        changed-see_all s tools r e ∙ rw found in
      rw (wanted, now) (is_none (drift options name last))
    where
      is_none : (o : Option String) → (not (is_some o) ≡ true) ↔ (o ≡ none)
      is_none none = (λ h. refl, λ h. refl)
      is_none (some x) = (λ h. cc, λ h. cc)

last_named_of_In :
    (name : String) (tool : Json) (tools : List Json)
    → tool_name tool ≡ some (some name)
    → In tool tools
    → (last : Json) × (last_named name tools ≡ some last)
last_named_of_In name tool [] named i = absurd i
last_named_of_In name tool (other ∷ tools) named (inr i) =
    let (last, e) = last_named_of_In name tool tools named i in (last, rw e)
last_named_of_In name tool (other ∷ tools) named (inl e) = first (last_named name tools)
  where
    here : (if is_named name (tool_name other) then some other else none) ≡ some other
    here = rw (e, named, eq_refl name)

    first :
        (later : Option Json)
        → (last : Json) × (or_option later
              (if is_named name (tool_name other) then some other else none)
            ≡ some last)
    first none = (other, here)
    first (some last) = (last, refl)

module _ (outside : Outside) (options : Options) where
  visible-reported_if :
      (b : Bool) (s : State) (name : String)
      → visible options (reported_if outside options b s).0 name ≡ visible options s name
  unfolding report visible
  visible-reported_if true s name = refl
  visible-reported_if false s name = told s.reported
    where
      after : Bool → State × List Act
      after b =
          if b then (s, []) else (record s { reported = true }, report_lines outside options s)

      told : (b : Bool) → visible options (after b).0 name ≡ visible options s name
      told true = refl
      told false = refl

  listed_of_visible :
      (s : State) (name : String) → visible options s name ≡ true → listed options name ≡ true
  unfolding visible
  listed_of_visible s name h = ground arith

  -- A listed tool with nothing wrong with the last definition of its name.
  abbrev pub IsApproved : List Json → String → Type 0
  IsApproved tools name =
      (listed options name ≡ true)
      × ((last : Json) × (last_named name tools ≡ some last) × (drift options name last ≡ none))

  -- The answer to a listing that the client asked for is written anew with the tools of some list `shown` in place of
  -- its own. A tool with a name is in it exactly when it is one of the answer's own, its name is listed by the options,
  -- and there is nothing wrong with the last definition that the answer gives under that name.
  pub filter_listing-shows :
      (p : Passing) (result : List (String × Json)) (tools : List Json) (q : Passing)
      → filter_listing outside options p result tools ≡ some q
      → (shown : List Json) × (q.line
          ≡ text_of (
              obj (
                of_entries (
                  put p.message "result"
                    (obj (of_entries (put result "tools" (arr (of_items shown)))))))))
        × ((tool : Json) (name : String)
            → tool_name tool ≡ some (some name)
            → In tool shown ↔ (In tool tools × IsApproved tools name))
  unfolding filter_listing is_shown
  filter_listing-shows p result tools q e =
      let (seen, done, e') = and_then-eq-some (see_all outside options p.state tools) _ e in
      let b = is_truthy (own result "nextCursor") in
      let now = (reported_if outside options b seen.0).0 in
      (
        filter (is_shown outside options now) tools,
        ap (λ (r : Passing). r.line) (sym (eq_of_some e')),
        λ tool name named.
            let kept = In-filter (is_shown outside options now) tool tools in
            let same = shown_is now tool name named ∙ visible-reported_if b seen.0 name in
            (
              λ i.
                  let (there, t) = kept.0 i in
                  let seen_so = sym same ∙ t in
                  let wanted = listed_of_visible seen.0 name seen_so in
                  let (last, found) = last_named_of_In name tool tools named there in
                  (
                    there,
                    (
                      wanted,
                      (
                        last,
                        found,
                        (visible-see_all outside options name wanted p.state tools seen last done
                              found).0
                            seen_so,
                      ),
                    ),
                  ),
              λ (there, (wanted, (last, found, right))). kept.1 (
                there,
                same
                    ∙ (visible-see_all outside options name wanted p.state tools seen last done
                          found).1
                        right,
              ),
            ),
      )
    where
      shown_is :
          (s : State) (tool : Json) (name : String)
          → tool_name tool ≡ some (some name)
          → is_shown outside options s tool ≡ visible options s name
      shown_is s tool name named = rw (named, is_shown)
