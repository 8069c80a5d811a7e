-- ===== src/Wrap/Server/Quiet.antt =====
-- An answer on its way to the client gives the server nothing, and leaves the calls that are held as they are.
use mcp_authz.Base.{
  Bool, true, false, ◌&&◌, String, ◌≡◌, refl, subst, List, [], ◌∷◌, ◌^^◌, put, Option, none, some,
  inl, inr, In, Bool-cases, if-cases, and_then-eq-some, eq_of_some, is_some, or_else, if◌then◌else◌,
}
use mcp_authz.Json.{Json, arr, own, items}
use mcp_authz.Screen.{Screened, pass, withhold, notice, members}
use mcp_authz.Wrap.{
  Options, Outside, State, Act, logged, is_truthy, listed, tool_name, has_id, drop_id, drop_call,
  estimate_tokens, call_at,
}
use mcp_authz.Wrap.Client.{is_method}
use mcp_authz.Wrap.Server.{
  is_response, report, see_named, see_all, report_lines, reported_if, Passing, filter_listing,
  listing_of, listing_stage, removed_instructions, hold_instructions, discovery_stage, with_notice,
  warned, screened_as, screen_answer, called, call_stage, without_instructions, tools_of, iterated,
  answer,
}
use mcp_authz.Wrap.Server.Tame.{
  append-IsQuiet, one_log-IsQuiet, logs-IsQuiet, sent-IsQuiet, Tame, IsKept, for_each-Tame,
  check_named-Tame,
}

module _ (outside : Outside) (options : Options) (P : State → Type 0) (Offered : Json → Type 0)
    (keeps : IsKept options P Offered) where
  report-Tame : (s : State) → P s → Tame P (report outside options s)
  unfolding report report_lines
  report-Tame s h = told s.reported
    where
      told :
          (b : Bool)
          → Tame P (
              if b then (s, []) else (record s { reported = true }, report_lines outside options s))
      told true = record { kept = h; quiet = λ line message i. i }
      told false = record {
        kept = keeps.moved s (record s { reported = true }) refl refl h;
        quiet =
            append-IsQuiet (logged _ ∷ []) _ (one_log-IsQuiet _)
              (logs-IsQuiet (λ name. "mcp-authz wrap: no tool named " ^^ name) _);
      }

  see_named-Tame :
      (s : State) (name : Option String) (tool : Json)
      → Offered tool
      → tool_name tool ≡ some name
      → P s
      → Tame P (see_named outside options s name tool)
  see_named-Tame s none tool offered named h = record { kept = h; quiet = λ line message i. i }
  see_named-Tame s (some name) tool offered named h =
      let noted = record s { seen = put s.seen name (estimate_tokens tool) } in
      check_named-Tame options P Offered keeps noted (some name) tool offered named
        (keeps.moved s noted refl refl h)

  see_all-Tame :
      (s : State) (tools : List Json) (r : State × List Act)
      → see_all outside options s tools ≡ some r
      → ((tool : Json) → In tool tools → Offered tool)
      → P s
      → Tame P r
  unfolding see_all
  see_all-Tame = for_each-Tame options P Offered keeps (see_named outside options) see_named-Tame

  -- An answer on its way keeps `P`, and its logs give the server nothing.
  abbrev Passes : Passing → Type 0
  Passes p = Tame P (p.state, p.logs)

  filter_listing-Passes :
      (p : Passing) (result : List (String × Json)) (tools : List Json) (q : Passing)
      → Passes p
      → filter_listing outside options p result tools ≡ some q
      → ((tool : Json) → In tool tools → Offered tool)
      → Passes q
  unfolding filter_listing
  filter_listing-Passes p result tools q tame e offered =
      let (seen, done, e') = and_then-eq-some (see_all outside options p.state tools) _ e in
      let looked = see_all-Tame p.state tools seen done offered tame.kept in
      let told = told_if (is_truthy (own result "nextCursor")) seen.0 looked.kept in
      subst Passes (eq_of_some e') (record {
        kept = told.kept;
        quiet =
            append-IsQuiet p.logs _ tame.quiet (append-IsQuiet seen.1 _ looked.quiet told.quiet);
      })
    where
      told_if : (b : Bool) (s : State) → P s → Tame P (reported_if outside options b s)
      told_if true s h = record { kept = h; quiet = λ line message i. i }
      told_if false s h = report-Tame s h

  listing_stage-Passes :
      (p q : Passing)
      → Passes p
      → listing_stage outside options p ≡ some q
      → ((tool : Json) → In tool (tools_of p.message) → Offered tool)
      → Passes q
  unfolding listing_stage
  listing_stage-Passes p q tame e offered =
      elim (if-cases (is_response p.message && has_id p.state.listing (own p.message "id")) _ _ e) [
        | inr (other, same) ↦ subst Passes (eq_of_some same) tame
        | inl (ours, done) ↦ of_tools (own (members (own p.message "result")) "tools") done offered
      ]
    where
      forgotten : Passing
      forgotten = record p {
        state = record p.state { listing = drop_id p.state.listing (own p.message "id") };
      }

      still : Passes forgotten
      still = record { kept = keeps.moved p.state _ refl refl tame.kept; quiet = tame.quiet }

      otherwise : (b : Bool) → (if b then none else some forgotten) ≡ some q → Passes q
      otherwise true h = cc
      otherwise false h = subst Passes (eq_of_some h) still

      of_tools :
          (tools : Json)
          → listing_of outside options forgotten (members (own p.message "result")) tools ≡ some q
          → ((tool : Json) → In tool (or_else (iterated tools) []) → Offered tool)
          → Passes q
      of_tools (arr vs) h o = filter_listing-Passes forgotten _ (items vs) q still h o
      of_tools value h o = otherwise _ h

  discovery_stage-Passes : (p : Passing) → Passes p → Passes (discovery_stage outside options p)
  unfolding discovery_stage hold_instructions removed_instructions
  discovery_stage-Passes p tame =
      elim (Bool-cases (is_response p.message && has_id p.state.discovering (own p.message "id"))) [
        | inr other ↦ rw other tame
        | inl ours ↦
            rw ours
              (elim (Bool-cases (is_some options.pinned && is_truthy (own p.message "result"))) [
                | inr free ↦ rw free still
                | inl bound ↦ rw bound (held_to _)
              ])
      ]
    where
      forgotten : Passing
      forgotten = record p {
        state = record p.state { discovering = drop_id p.state.discovering (own p.message "id") };
      }

      still : Passes forgotten
      still = record { kept = keeps.moved p.state _ refl refl tame.kept; quiet = tame.quiet }

      held_to :
          (b : Bool)
          → Passes (
              if b
              then without_instructions outside options forgotten (members (own p.message "result"))
              else forgotten)
      held_to true = record {
        kept = still.kept;
        quiet = append-IsQuiet p.logs _ tame.quiet (one_log-IsQuiet _);
      }
      held_to false = still

  screened_as-Passes :
      (p : Passing) (verdict : Screened) (q : Passing)
      → Passes p
      → screened_as outside options p verdict ≡ some q
      → Passes q
  unfolding warned
  screened_as-Passes p pass q tame e = subst Passes (eq_of_some e) tame
  screened_as-Passes p (withhold result warning) q tame e =
      subst Passes (eq_of_some e) (record {
        kept = tame.kept;
        quiet = append-IsQuiet p.logs _ tame.quiet (one_log-IsQuiet _);
      })
  screened_as-Passes p (notice note warning) q tame e =
      let (value, said, e') = and_then-eq-some (with_notice outside options p.line note) _ e in
      subst Passes (eq_of_some e') (record {
        kept = tame.kept;
        quiet = append-IsQuiet p.logs _ tame.quiet (one_log-IsQuiet _);
      })

  call_stage-Passes : (p q : Passing) → Passes p → call_stage outside options p ≡ some q → Passes q
  unfolding call_stage screen_answer
  call_stage-Passes p q tame e = elim (if-cases (is_response p.message) _ _ e) [
    | inr (other, same) ↦ subst Passes (eq_of_some same) tame
    | inl (ours, done) ↦ of_call (call_at p.state.calls (own p.message "id")) done
  ]
    where
      forgotten : Passing
      forgotten = record p {
        state = record p.state { calls = drop_call p.state.calls (own p.message "id") };
      }

      still : Passes forgotten
      still = record { kept = keeps.moved p.state _ refl refl tame.kept; quiet = tame.quiet }

      of_call : (o : Option String) → called outside options p o ≡ some q → Passes q
      of_call none h = subst Passes (eq_of_some h) tame
      of_call (some tool) h = elim (if-cases (is_truthy (own p.message "result")) _ _ h) [
        | inr (bare, same) ↦ subst Passes (eq_of_some same) still
        | inl (full, screened) ↦
            let (checked, read_so, e') =
              and_then-eq-some (outside.parse_checked p.line) _ screened in
            screened_as-Passes forgotten _ q still e'
      ]

  pub answer-Tame :
      (s : State) (line : String) (message : List (String × Json)) (r : State × List Act)
      → answer outside options s line message ≡ some r
      → ((tool : Json) → In tool (tools_of message) → Offered tool)
      → P s
      → Tame P r
  unfolding answer
  answer-Tame s line message r e offered h =
      let news = is_method message "notifications/tools/list_changed" in
      let (listed, done, e') = and_then-eq-some (listing_stage outside options (begun news)) _ e in
      let (last, screened, e'') =
        and_then-eq-some (call_stage outside options (discovery_stage outside options listed)) _
          e' in
      let passed =
        call_stage-Passes (discovery_stage outside options listed) last
          (discovery_stage-Passes listed
            (listing_stage-Passes (begun news) listed (begun_tame news) done offered))
          screened in
      subst (Tame P) (eq_of_some e'') (record {
        kept = passed.kept;
        quiet = append-IsQuiet last.logs _ passed.quiet (sent-IsQuiet last.line);
      })
    where
      begun : Bool → Passing
      begun b = record {
        state = if b then record s { verified = [] } else s;
        message = message;
        line = line;
        logs = [];
      }

      begun_tame : (b : Bool) → Passes (begun b)
      begun_tame true = record { kept = keeps.cleared s h; quiet = λ l m i. i }
      begun_tame false = record { kept = h; quiet = λ l m i. i }
