-- ===== src/WrapConfig/Recorded.antt =====
-- What a config that is accepted may name, and what a refresh leaves switched on.
use mcp_authz.Base.{
  true, false, not, ◌&&◌, String, ◌≡◌, refl, sym, ap, subst, ◌∙◌, ◌↔◌, ◌⊎◌, inl, inr, List, [], ◌∷◌,
  Option, none, some, Result, ok, >>=-eq-ok, >>_iff, refuse_if-eq-ok, In, In-filter, filter,
  filter_complete, Bool-cases, is_empty, or_else, or_option, Option-cases, lookup,
}
use mcp_authz.Json.{Json, str, arr, nil, own}
use mcp_authz.Screen.{members}
use mcp_authz.Definitions.{changed_fields}
use mcp_authz.WrapConfig.{
  Definition, ConfigError, WrapConfig, read_config, listed, held, lacks, list_at, is_given,
  recorded_tools, text_or, no_command, no_cwd, no_args, list_or, or_value, strings, pinned_if,
}
use mcp_authz.WrapConfig.Refresh.{
  DiscoveredTool, Previous, approved, is_new, is_changed, chosen, was_on, write_wrap_config,
}

-- The tool is on record, is as it was recorded, and was on before.
abbrev pub StaysOn : Previous → DiscoveredTool → Type 0
StaysOn previous tool =
    (definition : Definition) × (approved (some previous) tool.name ≡ some definition)
    × (changed_fields definition tool.pin ≡ [])
    × (was_on previous.allow previous.deny tool.name ≡ true)

nothing : {A : Type 0} (l : List A) → not (is_empty l) ≡ false → l ≡ []
nothing [] e = refl
nothing (a ∷ l) e = cc

chosen_iff :
    (previous : Previous) (tool : DiscoveredTool)
    → (chosen (some previous) tool ≡ true) ↔ StaysOn previous tool
unfolding chosen is_new is_changed
chosen_iff previous tool = go (approved (some previous) tool.name) refl
  where
    go :
        (o : Option Definition)
        → approved (some previous) tool.name ≡ o
        → (chosen (some previous) tool ≡ true) ↔ StaysOn previous tool
    go none e = (λ h. cc (rw e at h), λ (definition, found, same, on). cc (sym e ∙ found))
    go (some d) e = elim (Bool-cases (not (is_empty (changed_fields d tool.pin)))) [
      | inl differs ↦ (
        λ h. cc (rw (e, differs) at h),
        λ (definition, found, same, on).
            let is : d ≡ definition = cc (sym e ∙ found) in
            let unlike : true ≡ false =
              sym differs
              ∙ ap (λ (x : Definition). not (is_empty (changed_fields x tool.pin))) is
              ∙ ap (λ (names : List String). not (is_empty names)) same in
            cc unlike,
      )
      | inr same ↦ (
        λ h. (d, e, nothing (changed_fields d tool.pin) same, rw (e, same) at h),
        λ (definition, found, alike, on). rw (e, same) on,
      )
    ]

-- A config that is written over another keeps a tool on exactly where the server offers it, it is on record, nothing of
-- its definition has changed since, and the config that is replaced showed it.
pub write_wrap_config-StaysOn :
    (previous : Previous) (tools : List DiscoveredTool) (tool : DiscoveredTool)
    → In tool (write_wrap_config (some previous) tools).on ↔ (In tool tools × StaysOn previous tool)
unfolding write_wrap_config
write_wrap_config-StaysOn previous tools tool =
    let kept = In-filter (chosen (some previous)) tool tools in
    let stays = chosen_iff previous tool in
    (λ i. let (j, t) = kept.0 i in (j, stays.0 t), λ (j, h). kept.1 (j, stays.1 h))

absent :
    (key : String) (value : Json) (list : Option (List String))
    → is_given value ≡ false
    → list_at key value ≡ ok list
    → list ≡ none
absent key Json.undefined list missing e = cc
absent key _ list missing e = cc

-- Of the two lists at most one is there.
one_given :
    (allowed denied : Json) (allow deny : Option (List String))
    → (is_given allowed && is_given denied) ≡ false
    → list_at "allow" allowed ≡ ok allow
    → list_at "deny" denied ≡ ok deny
    → (allow ≡ none) ⊎ (deny ≡ none)
one_given allowed denied allow deny apart a d = elim (Bool-cases (is_given allowed)) [
  | inl given ↦ inr (absent "deny" denied deny (rw given at apart) d)
  | inr missing ↦ inl (absent "allow" allowed allow missing a)
]

eq_of_ok : {A : Type 0} {a b : A} → Path (Result ConfigError A) (ok a) (ok b) → a ≡ b
eq_of_ok e = cc

lacks-nothing :
    (pinned : List (String × Definition)) (names : List String)
    → not (is_empty (filter (lacks (some pinned)) names)) ≡ false
    → (name : String) → In name names
    → (definition : Definition) × (lookup pinned name ≡ some definition)
lacks-nothing pinned names e name i = elim (Option-cases (lookup pinned name)) [
  | inr found ↦ found
  | inl missing ↦
      let lacking : In name (filter (lacks (some pinned)) names) =
        filter_complete (lacks (some pinned)) name names i (rw missing) in
      absurd (subst (In name) (nothing _ e) lacking)
]

module _ (resolve_cwd : String → String) (schema : Result String Json) where
  -- What an accepted config has to do with its record.
  abbrev pub IsOnRecord : WrapConfig → Type 0
  IsOnRecord c =
      (pinned : List (String × Definition)) × (c.pinned ≡ some pinned)
      × (recorded_tools schema ≡ ok pinned)
      × ((c.allow ≡ none) ⊎ (c.deny ≡ none))
      × ((name : String)
          → In name (or_else (or_option c.allow c.deny) [])
          → (definition : Definition) × (lookup pinned name ≡ some definition))

  held-IsOnRecord :
      (command cwd : String) (args : List String) (allow deny : Option (List String))
      (pinned : List (String × Definition)) (c : WrapConfig)
      → recorded_tools schema ≡ ok pinned
      → (allow ≡ none) ⊎ (deny ≡ none)
      → held resolve_cwd true schema command cwd args allow deny (some pinned) ≡ ok c
      → IsOnRecord c
  unfolding held
  held-IsOnRecord command cwd args allow deny pinned c reads one e =
      let (known, last) = refuse_if-eq-ok _ _ _ e in
      subst IsOnRecord (eq_of_ok last)
        (pinned, refl, reads, one, lacks-nothing pinned (or_else (or_option allow deny) []) known)

  listed-IsOnRecord :
      (allowed denied : Json) (command cwd : String) (args : List String) (c : WrapConfig)
      → listed resolve_cwd true schema allowed denied command cwd args ≡ ok c
      → IsOnRecord c
  unfolding listed
  listed-IsOnRecord allowed denied command cwd args c e =
      let (apart, e1) = refuse_if-eq-ok _ _ _ e in
      let (allow, allows, e2) = >>=-eq-ok (list_at "allow" allowed) _ e1 in
      let (deny, denies, e3) = >>=-eq-ok (list_at "deny" denied) _ e2 in
      let (found, records, e4) = >>=-eq-ok (pinned_if true schema) _ e3 in
      let (pinned, reads, last) = >>=-eq-ok (recorded_tools schema) _ records in
      let same : some pinned ≡ found = eq_of_ok last in
      held-IsOnRecord command cwd args allow deny pinned c reads
        (one_given allowed denied allow deny apart allows denies)
        (subst
          (λ (p : Option (List (String × Definition))).
            held resolve_cwd true schema command cwd args allow deny p ≡ ok c)
          (sym same) e4)

  -- A config that is accepted with its record names none but recorded tools, in one of its two lists at most, and is
  -- read of exactly the record that stands beside it.
  pub read_config-IsOnRecord :
      (config : Json) (c : WrapConfig)
      → read_config resolve_cwd true schema config ≡ ok c
      → IsOnRecord c
  unfolding read_config
  read_config-IsOnRecord config c e =
      let server = own (members config) "server" in
      let (known, e1) = (>>_iff _ _ _).0 e in
      let (known_server, e2) = (>>_iff _ _ _).0 e1 in
      let (command, has_command, e3) =
        >>=-eq-ok (text_or no_command (own (members server) "command")) _ e2 in
      let (cwd, has_cwd, e4) =
        >>=-eq-ok (text_or no_cwd (or_value (own (members server) "cwd") (str "."))) _ e3 in
      let (args, has_args, e5) =
        >>=-eq-ok (list_or no_args (strings (or_value (own (members server) "args") (arr nil)))) _
          e4 in
      listed-IsOnRecord (own (members config) "allow") (own (members config) "deny") command cwd
        args c e5
