-- ===== src/Wrap/Server/Tame.antt =====
-- What gives the server nothing and keeps a property of the state, and that checking a tool is such.
use mcp_authz.Base.{
  not, ◌&&◌, String, ◌≡◌, refl, List, [], ◌∷◌, ◌++◌, Option, none, some, inl, inr, In, In-append,
  Bool-cases, Option-cases, lookup, map,
}
use mcp_authz.Json.{Json}
use mcp_authz.Wrap.{
  Options, State, Act, forwarded, sent, logged, is_reason, hid, drift, check, check_all,
  check_named, listed, tool_name, for_each,
}
use mcp_authz.Wrap.Each.{for_each_rule}

abbrev pub IsQuiet : List Act → Type 0
IsQuiet acts = (line : String) (message : List (String × Json)) → ¬ In (forwarded line message) acts

pub append-IsQuiet : (xs ys : List Act) → IsQuiet xs → IsQuiet ys → IsQuiet (xs ++ ys)
append-IsQuiet xs ys h k line message i = elim (In-append (forwarded line message) xs ys i) [
  | inl j ↦ h line message j
  | inr j ↦ k line message j
]

pub one_log-IsQuiet : (text : String) → IsQuiet (logged text ∷ [])
one_log-IsQuiet text line message (inl e) = cc
one_log-IsQuiet text line message (inr never) = never

pub logs-IsQuiet :
    (text : String → String) (names : List String) → IsQuiet (map (λ n. logged (text n)) names)
logs-IsQuiet text [] line message i = i
logs-IsQuiet text (n ∷ ns) line message (inl e) = cc
logs-IsQuiet text (n ∷ ns) line message (inr i) = logs-IsQuiet text ns line message i

pub sent-IsQuiet : (line : String) → IsQuiet (sent line ∷ [])
sent-IsQuiet text line message (inl e) = cc
sent-IsQuiet text line message (inr never) = never

module _ (P : State → Type 0) where
  -- A state is reached in which `P` holds, and the server is given nothing.
  pub record Tame (r : State × List Act) : Type 0 where
    pub kept : P r.0
    pub quiet : IsQuiet r.1

pub check-IsQuiet :
    (options : Options) (s : State) (name : String) (tool : Json)
    → IsQuiet (check options s name tool).1
unfolding check hid
check-IsQuiet options s name tool = elim (Option-cases (drift options name tool)) [
  | inl same ↦ rw same (λ line message i. i)
  | inr (reason, e) ↦
      rw e
        (elim (Bool-cases
          (listed options name && not (is_reason options reason (lookup s.changed name)))) [
            | inl new ↦ rw new (one_log-IsQuiet _)
            | inr known ↦ rw known (λ line message i. i)
          ])
]

-- `P` is kept by what does not touch what is held and what has been checked, by forgetting the latter, and by
-- the check of a tool that is offered.
pub record IsKept (options : Options) (P : State → Type 0) (Offered : Json → Type 0) : Type 0 where
  pub moved : (s t : State) → t.held ≡ s.held → t.verified ≡ s.verified → P s → P t
  pub cleared : (s : State) → P s → P (record s { verified = [] })
  pub checked :
      (s : State) (name : String) (tool : Json)
      → Offered tool
      → tool_name tool ≡ some (some name)
      → P s
      → P (check options s name tool).0

module _ (options : Options) (P : State → Type 0) (Offered : Json → Type 0)
    (keeps : IsKept options P Offered) where
  pub for_each-Tame :
      (handle : State → Option String → Json → State × List Act)
      → ((s : State) (name : Option String) (tool : Json)
          → Offered tool
          → tool_name tool ≡ some name
          → P s
          → Tame P (handle s name tool))
      → (s : State) (tools : List Json) (r : State × List Act) → for_each handle s tools ≡ some r
      → ((tool : Json) → In tool tools → Offered tool)
      → P s
      → Tame P r
  for_each-Tame handle tame =
      for_each_rule handle
        (λ s tools r. ((tool : Json) → In tool tools → Offered tool) → P s → Tame P r)
        (λ s offered h. record { kept = h; quiet = λ line message i. i })
        (λ s name tool tools q named rest offered h.
          let one = tame s name tool (offered tool (inl refl)) named h in
          let more = rest (λ t i. offered t (inr i)) one.kept in
          record { kept = more.kept; quiet = append-IsQuiet _ _ one.quiet more.quiet })

  pub check_named-Tame :
      (s : State) (name : Option String) (tool : Json)
      → Offered tool
      → tool_name tool ≡ some name
      → P s
      → Tame P (check_named options s name tool)
  check_named-Tame s none tool offered named h = record { kept = h; quiet = λ line message i. i }
  check_named-Tame s (some name) tool offered named h = record {
    kept = keeps.checked s name tool offered named h;
    quiet = check-IsQuiet options s name tool;
  }

  pub check_all-Tame :
      (s : State) (tools : List Json) (r : State × List Act)
      → check_all options s tools ≡ some r
      → ((tool : Json) → In tool tools → Offered tool)
      → P s
      → Tame P r
  unfolding check_all
  check_all-Tame = for_each-Tame (check_named options) check_named-Tame
