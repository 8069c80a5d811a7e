-- ===== src/Wrap/Session/Sound.antt =====
-- What a line from either side can bring about: the server is given what the session may give it.
use mcp_authz.Base.{
  Bool, true, false, not, ◌&&◌, String, ◌≡◌, sym, subst, List, [], ◌++◌, Option, none, some, inl,
  inr, In, In-append, In-append_left, All, or_else, if-cases, and_then-eq-some, eq_of_some,
  contains_iff, if◌then◌else◌,
}
use mcp_authz.Json.{Json, own}
use mcp_authz.Screen.{members}
use mcp_authz.Wrap.{Options, Outside, State, Act, forwarded, is_truthy, check_all}
use mcp_authz.Wrap.Client.{request_list, release}
use mcp_authz.Wrap.Client.Calm.{
  Permits, Calm, Permits_same, IsCall, release-Calm, request_list-Calm, client_line-Calm,
}
use mcp_authz.Wrap.Client.Waiting.{Waits, client_line-Waits, held-release, held-request_list}
use mcp_authz.Wrap.Server.{
  iterated, tools_of, is_response, is_own, verify_answer, of_message, server_line,
}
use mcp_authz.Wrap.Server.Tame.{IsQuiet, Tame, IsKept, check_all-Tame, sent-IsQuiet}
use mcp_authz.Wrap.Server.Quiet.{answer-Tame}
use mcp_authz.Wrap.Session.Backed.{IsKnown, IsKnown-IsKept, IsBacked-same, IsBacked-wider}
use mcp_authz.Wrap.Session.{
  Event, client_says, server_says, stops, step, offered_in, offered, Runs, begin, next,
}

module _ (outside : Outside) (options : Options) where
  -- A step is sound: what the server is given may be given in the state reached.
  pub record IsSound (seen : List Json) (r : State × List Act) : Type 0 where
    pub known : IsKnown outside options seen r.0
    pub permitted :
        (line : String) (message : List (String × Json))
        → In (forwarded line message) r.1
        → Permits outside options r.0 line message

  of_Tame :
      (seen : List Json) (r : State × List Act)
      → Tame (IsKnown outside options seen) r
      → IsSound seen r
  of_Tame seen r tame = record {
    known = tame.kept;
    permitted = λ line message i. absurd (tame.quiet line message i);
  }

  of_Calm :
      (seen : List Json) (s : State) (r : State × List Act)
      → IsKnown outside options seen s
      → Waits outside options r.0
      → Calm outside options s r
      → IsSound seen r
  of_Calm seen s r known all calm = record {
    known = record {
      waits = all;
      backed = IsBacked-same options seen s r.0 calm.same_verified known.backed;
    };
    permitted = λ line message i.
        Permits_same outside options r.0 s line message (sym calm.same_changed)
          (sym calm.same_verified) (calm.permitted line message i);
  }

  after_Tame :
      (seen : List Json) (r q : State × List Act)
      → IsQuiet r.1
      → IsSound seen q
      → IsSound seen (q.0, r.1 ++ q.1)
  after_Tame seen r q quiet sound = record {
    known = sound.known;
    permitted = λ line message i. elim (In-append (forwarded line message) r.1 q.1 i) [
      | inl j ↦ absurd (quiet line message j)
      | inr j ↦ sound.permitted line message j
    ];
  }

  release-IsSound :
      (seen : List Json) (s : State) (failure : Option String)
      → IsKnown outside options seen s
      → IsSound seen (release outside options s failure)
  release-IsSound seen s failure known =
      of_Calm seen s _ known
        (subst (All (IsCall outside options)) (sym (held-release outside options s failure)) tt)
        (release-Calm outside options s failure known.waits)

  request_list-IsSound :
      (seen : List Json) (s : State) (meta cursor : Json)
      → IsKnown outside options seen s
      → IsSound seen (request_list s meta cursor)
  request_list-IsSound seen s meta cursor known =
      of_Calm seen s _ known
        (subst (All (IsCall outside options))
          (sym (held-request_list outside options s meta cursor)) known.waits)
        (request_list-Calm outside options s meta cursor)

  module _ (seen : List Json) where
    keeps : IsKept options (IsKnown outside options seen) (λ tool. In tool seen)
    keeps = IsKnown-IsKept outside options seen

    go_on :
        (t : State) (cursor : Json)
        → IsKnown outside options seen t
        → (b : Bool)
        → IsSound seen
            (if b then request_list t t.verify_meta cursor else release outside options t none)
    go_on t cursor known true = request_list-IsSound seen t _ _ known
    go_on t cursor known false = release-IsSound seen t none known

    verify_answer-IsSound :
        (s : State) (message : List (String × Json)) (r : State × List Act)
        → IsKnown outside options seen s
        → ((tool : Json) → In tool (tools_of message) → In tool seen)
        → verify_answer outside options s message ≡ some r
        → IsSound seen r
    unfolding verify_answer
    verify_answer-IsSound s message r known inside e =
        let tools_value = own (members (own message "result")) "tools" in
        let cursor = own (members (own message "result")) "nextCursor" in
        elim (if-cases (not (is_truthy tools_value)) _ _ e) [
          | inl (silent, done) ↦
              subst (IsSound seen) (eq_of_some done) (release-IsSound seen s _ known)
          | inr (listed, done) ↦
              let (tools, there, e') = and_then-eq-some (iterated tools_value) _ done in
              let (checked, read_so, e'') = and_then-eq-some (check_all options s tools) _ e' in
              let inside' : (tool : Json) → In tool tools → In tool seen =
                subst
                  (λ (o : Option (List Json)).
                    (tool : Json) → In tool (or_else o []) → In tool seen)
                  there inside in
              let tame =
                check_all-Tame options (IsKnown outside options seen) (λ tool. In tool seen) keeps s
                  tools checked read_so inside' known in
              subst (IsSound seen) (eq_of_some e'') (
                after_Tame seen checked _ tame.quiet
                  (go_on checked.0 cursor tame.kept (is_truthy cursor)))
        ]

    of_value :
        (s : State) (line : String) (o : Option Json) (r : State × List Act)
        → IsKnown outside options seen s
        → ((tool : Json) → In tool (offered_in o) → In tool seen)
        → of_message outside options s line o ≡ some r
        → IsSound seen r
    of_value s line none r known inside e =
        subst (IsSound seen) (eq_of_some e)
          (of_Tame seen _ (record { kept = known; quiet = sent-IsQuiet line }))
    of_value s line (some value) r known inside e =
        elim (if-cases
          (is_response (members value) && is_own outside options s (own (members value) "id")) _ _
          e) [
            | inl (own_answer, done) ↦ verify_answer-IsSound s (members value) r known inside done
            | inr (other, done) ↦ of_Tame seen r (
                answer-Tame outside options (IsKnown outside options seen) (λ tool. In tool seen)
                  keeps s line (members value) r done inside known)
          ]

    event-IsSound :
        (s : State) (event : Event) (r : State × List Act)
        → IsKnown outside options seen s
        → ((tool : Json) → In tool (offered outside event) → In tool seen)
        → step outside options s event ≡ some r
        → IsSound seen r
    unfolding step server_line
    event-IsSound s (client_says line) r known inside e = subst (IsSound seen) (eq_of_some e) (
        of_Calm seen s _ known (client_line-Waits outside options s line known.waits)
          (client_line-Calm outside options s line))
    event-IsSound s (server_says line) r known inside e =
        of_value s line (outside.parse line) r known inside e
    event-IsSound s stops r known inside e = subst (IsSound seen) (eq_of_some e) (record {
      known = record { waits = known.waits; backed = known.backed };
      permitted = λ line message i. absurd i;
    })

  pub step-IsSound :
      (seen : List Json) (s : State) (event : Event) (r : State × List Act)
      → IsKnown outside options seen s
      → step outside options s event ≡ some r
      → IsSound (offered outside event ++ seen) r
  step-IsSound seen s event r known e =
      event-IsSound (offered outside event ++ seen) s event r
        (record {
          waits = known.waits;
          backed = IsBacked-wider options seen (offered outside event) s known.backed;
        })
        (λ tool i. In-append_left tool (offered outside event) seen i) e

  pub Runs-IsKnown :
      {seen : List Json} {s : State} → Runs outside options seen s → IsKnown outside options seen s
  Runs-IsKnown begin = record { waits = tt; backed = λ name i. absurd ((contains_iff [] name).0 i) }
  Runs-IsKnown (next seen s event t acts run e) =
      (step-IsSound seen s event (t, acts) (Runs-IsKnown run) e).known
