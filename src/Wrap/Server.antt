-- ===== src/Wrap/Server.antt =====
-- wrap.ts: a line of the server's: an answer to `wrap` itself, or one that goes on to the client, with what
-- has not been approved taken out of it. No value stands for an exception, which ends the process.
pub mod Tame
pub mod Quiet
pub mod Shown
use mcp_authz.Base.{
  ℕ, ◌+◌, ◌-◌, Bool, true, false, not, ◌&&◌, ◌||◌, String, List, [], ◌∷◌, ◌++◌, Option, none, some,
  filter, length, contains, lookup, put, remove, keys, map, is_some, or_else, and_then,
  if◌then◌else◌, ◌==◌, ◌^^◌, decimal, ltb,
}
use mcp_authz.Json.{
  Json, undefined, str, arr, obj, Items, items, of_items, nil, cons, field, end, of_entries,
  record?, own,
}
use mcp_authz.Screen.{Screened, pass, withhold, notice, screen_result, members}
use mcp_authz.Definitions.{sorted_names}
use mcp_authz.Proxy.Answers.{same_value}
use mcp_authz.Wrap.{
  Definition, Options, Outside, State, Act, sent, logged, text_of, is_undefined, is_truthy, has_id,
  drop_id, call_at, drop_call, estimate_tokens, joined, tool_name, for_each, listed, visible, check,
  check_all,
}
use mcp_authz.Wrap.Client.{is_method, request_list, release, approved_of}

-- `message?.method === undefined && message?.id !== undefined`
unfoldable pub is_response : List (String × Json) → Bool
is_response message = is_undefined (own message "method") && not (is_undefined (own message "id"))

-- What a value is iterated as: the characters of a text have no name.
abbrev pub iterated : Json → Option (List Json)
iterated (arr vs) = some (items vs)
iterated (str s) = some []
iterated value = none

-- The tools that an answer lists.
abbrev pub tools_of : List (String × Json) → List Json
tools_of message = or_else (iterated (own (members (own message "result")) "tools")) []

unfoldable pub total : List (String × ℕ) → ℕ
total [] = 0
total ((name, tokens) ∷ rest) = tokens + total rest

-- An answer on its way to the client: the session, its message, the line that says it, and what is logged.
pub record Passing : Type 0 where
  pub state : State
  pub message : List (String × Json)
  pub line : String
  pub logs : List Act

-- `{ ...value }` of an answer's result, which the protocol has be an object.
abbrev pub rewritten : Passing → List (String × Json) → Passing
rewritten p message = record p { message = message; line = text_of (obj (of_entries message)) }

module _ (outside : Outside) (options : Options) where
  -- `formatTokens`
  unfoldable pub format_tokens : ℕ → String
  format_tokens tokens =
      if ltb tokens 1000 then "~" ^^ decimal tokens else "~" ^^ outside.thousands tokens ^^ "k"

  abbrev named_tools : List String
  named_tools = or_else options.allow (or_else options.deny [])

  abbrev hidden_tail : List String → String
  hidden_tail [] = ""
  hidden_tail (name ∷ names) = ", hidden: " ^^ joined (name ∷ names)

  unfoldable pub report_lines : State → List Act
  report_lines s =
      let hidden = sorted_names (filter (λ name. not (visible options s name)) (keys s.seen)) in
      let shown = total (filter (λ e. visible options s e.0) s.seen) in
      logged (
        "mcp-authz wrap: "
        ^^ decimal (length s.seen - length hidden)
        ^^ "/"
        ^^ decimal (length s.seen)
        ^^ " tools exposed ("
        ^^ format_tokens shown
        ^^ " of "
        ^^ format_tokens (total s.seen)
        ^^ " tokens)"
        ^^ hidden_tail hidden)
      ∷ map (λ name. logged ("mcp-authz wrap: no tool named " ^^ name))
          (filter (λ name. not (is_some (lookup s.seen name))) named_tools)

  -- `report`
  unfoldable pub report : State → State × List Act
  report s = if s.reported then (s, []) else (record s { reported = true }, report_lines s)

  -- One tool of a listing that the client asked for.
  abbrev pub see_named : State → Option String → Json → State × List Act
  see_named s none tool = (s, [])
  see_named s (some name) tool =
      check options (record s { seen = put s.seen name (estimate_tokens tool) }) name tool

  unfoldable pub see_all : State → List Json → Option (State × List Act)
  see_all = for_each see_named

  -- `visible(tool.name)`: a list of allowed names holds no name that is not a text.
  unfoldable pub is_shown : State → Json → Bool
  is_shown s tool = elim (tool_name tool) [
    | some (some name) ↦ visible options s name
    | _ ↦ not (is_some options.allow)
  ]

  abbrev reported_if : Bool → State → State × List Act
  reported_if false s = report s
  reported_if true s = (s, [])

  -- The answer to a listing, with the tools that are not to be seen taken out.
  unfoldable pub filter_listing : Passing → List (String × Json) → List Json → Option Passing
  filter_listing p result tools = and_then (see_all p.state tools) (λ seen.
      let (now, report_logs) = reported_if (is_truthy (own result "nextCursor")) seen.0 in
      let shown = filter (is_shown now) tools in
      let kept = obj (of_entries (put result "tools" (arr (of_items shown)))) in
      some (record (rewritten p (put p.message "result" kept)) {
        state = now;
        logs = p.logs ++ (seen.1 ++ report_logs);
      }))

  abbrev listing_of : Passing → List (String × Json) → Json → Option Passing
  listing_of p result (arr vs) = filter_listing p result (items vs)
  listing_of p result value = if is_truthy value then none else some p

  -- `response && listing.delete(message.id!) && message.result?.tools`
  pub listing_stage : Passing → Option Passing
  listing_stage p =
      let id = own p.message "id" in
      let result = members (own p.message "result") in
      let forgotten = record p {
        state = record p.state { listing = drop_id p.state.listing id };
      } in
      if is_response p.message && has_id p.state.listing id
      then listing_of forgotten result (own result "tools")
      else some p

  abbrev recorded_instructions : Json
  recorded_instructions = elim (approved_of_instructions options.pinned) [
    | none ↦ undefined
    | some definition ↦ own definition "instructions"
  ]
    where
      approved_of_instructions : Option (List (String × Definition)) → Option Definition
      approved_of_instructions none = none
      approved_of_instructions (some pinned) = lookup pinned "server:instructions"

  pub removed_instructions : Act
  removed_instructions = logged (
      "mcp-authz wrap: removed the server's instructions: they changed since you approved them. "
      ^^ "Review with mcp-authz tools --check <config>, then --refresh to approve.")

  abbrev pub without_instructions : Passing → List (String × Json) → Passing
  without_instructions p result =
      record (rewritten p
        (put p.message "result" (obj (of_entries (remove result "instructions"))))) {
          logs = p.logs ++ removed_instructions ∷ [];
        }

  -- The instructions of an answer, held to the record.
  pub hold_instructions : Passing → Passing
  hold_instructions p =
      let result = members (own p.message "result") in
      let live = own result "instructions" in
      if not (is_undefined live) && not (same_value live recorded_instructions)
      then without_instructions p result
      else p

  pub discovery_stage : Passing → Passing
  discovery_stage p =
      let id = own p.message "id" in
      let forgotten = record p {
        state = record p.state { discovering = drop_id p.state.discovering id };
      } in
      if is_response p.message && has_id p.state.discovering id
      then (if is_some options.pinned && is_truthy (own p.message "result")
          then hold_instructions forgotten
          else forgotten)
      else p

  -- `withNotice`
  pub with_notice : String → Json → Option Json
  with_notice line note = and_then (outside.parse_verbatim line) (λ value.
      let message = members value in
      let result = members (own message "result") in
      let content : Items = elim (own result "content") [ arr vs ↦ vs | _ ↦ nil ] in
      let said = obj (of_entries (put result "content" (arr (cons note content)))) in
      some (obj (of_entries (put message "result" said))))

  warned : String → Act
  warned warning = logged ("mcp-authz wrap: " ^^ warning)

  abbrev screened_as : Passing → Screened → Option Passing
  screened_as p pass = some p
  screened_as p (withhold result warning) =
      some (record (rewritten p (put p.message "result" result)) {
        logs = p.logs ++ warned warning ∷ [];
      })
  screened_as p (notice note warning) =
      and_then (with_notice p.line note)
        (λ value. some (record p { line = text_of value; logs = p.logs ++ warned warning ∷ [] }))

  -- The answer to a call of this tool, read exactly and held to the definition of the tool.
  pub screen_answer : Passing → String → Option Passing
  screen_answer p tool = and_then (outside.parse_checked p.line) (λ checked. screened_as p (
      screen_result outside.validate tool (or_else (approved_of outside options tool) [])
        (own (members checked) "result")))

  abbrev called : Passing → Option String → Option Passing
  called p none = some p
  called p (some tool) =
      let done = record p {
        state = record p.state { calls = drop_call p.state.calls (own p.message "id") };
      } in
      if is_truthy (own p.message "result") then screen_answer done tool else some done

  pub call_stage : Passing → Option Passing
  call_stage p =
      if is_response p.message
      then called p (call_at p.state.calls (own p.message "id"))
      else some p

  -- What is passed on to the client, which is told of every message but the answers to `wrap` itself.
  pub answer : State → String → List (String × Json) → Option (State × List Act)
  answer s line message =
      let now =
        if is_method message "notifications/tools/list_changed"
        then record s { verified = [] }
        else s in
      and_then (listing_stage (record { state = now; message = message; line = line; logs = [] }))
        (λ listed.
          and_then (call_stage (discovery_stage listed))
            (λ last. some (last.state, last.logs ++ sent last.line ∷ [])))

  abbrev pub continue : State → Json → State × List Act
  continue s cursor =
      if is_truthy cursor
      then request_list s s.verify_meta cursor
      else release outside options s none

  -- A page of `wrap`'s own listing.
  unfoldable pub verify_answer : State → List (String × Json) → Option (State × List Act)
  verify_answer s message =
      let result = members (own message "result") in
      if not (is_truthy (own result "tools"))
      then some (release outside options s (some "the server would not list its tools to check it"))
      else and_then (iterated (own result "tools")) (λ tools.
        and_then (check_all options s tools) (λ checked.
          let (now, more) = continue checked.0 (own result "nextCursor") in
          some (now, checked.1 ++ more)))

  abbrev pub is_own : State → Json → Bool
  is_own s id = elim s.verifying [ none ↦ false | some own_id ↦ same_value id (str own_id) ]

  abbrev pub of_message : State → String → Option Json → Option (State × List Act)
  of_message s line none = some (s, sent line ∷ [])
  of_message s line (some value) =
      let message = members value in
      if is_response message && is_own s (own message "id")
      then verify_answer s message
      else answer s line message

  -- The handler of a line of the server's.
  unfoldable pub server_line : State → String → Option (State × List Act)
  server_line s line = of_message s line (outside.parse line)
