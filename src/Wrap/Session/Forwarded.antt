-- ===== src/Wrap/Session/Forwarded.antt =====
-- Which calls a server is given.
use mcp_authz.Base.{true, false, String, ◌≡◌, List, ◌++◌, some, In, is_some, arith}
use mcp_authz.Json.{Json, record?}
use mcp_authz.StrictJson.{has_duplicate_key}
use mcp_authz.Screen.{truthy}
use mcp_authz.Wrap.{Options, Outside, State, Act, forwarded, listed, visible}
use mcp_authz.Wrap.Client.{is_method, called_name, wrong_arguments}
use mcp_authz.Wrap.Session.{Event, step, offered, Runs}
use mcp_authz.Wrap.Session.Backed.{Matches}
use mcp_authz.Wrap.Session.Sound.{step-IsSound, Runs-IsKnown}

module _ (outside : Outside) (options : Options) where
  -- A call that the session allows: of a tool that is listed and, where there is a record, that the server has
  -- listed as it was approved; with arguments that its definition allows.
  abbrev pub IsAllowed : List Json → List (String × Json) → Type 0
  IsAllowed seen message =
      (name : String) × (called_name message ≡ some name)
      × (listed options name ≡ true)
      × (is_some options.pinned ≡ true → Matches options seen name)
      × (truthy (wrong_arguments outside options name message) ≡ false)

  listed_of_visible :
      (s : State) (name : String) → visible options s name ≡ true → listed options name ≡ true
  unfolding visible
  listed_of_visible s name h = ground arith

  -- Whatever the client and the server have written so far, a line of the client's that the server is given next is
  -- one JSON object that repeats no key; and if it calls a tool, the call has a name, that of a tool that is listed
  -- by the options and, where there is a record, has been listed by the server with a definition that the record
  -- allows, and its arguments are not refused by the definition.
  pub forwarded-IsAllowed :
      {seen : List Json} {s : State} (event : Event) (t : State) (acts : List Act) (line : String)
      (message : List (String × Json))
      → Runs outside options seen s
      → step outside options s event ≡ some (t, acts)
      → In (forwarded line message) acts
      → ((value : Json) × (outside.parse_checked line ≡ some value)
          × (record? value ≡ some message))
        × (has_duplicate_key line ≡ false)
        × (is_method message "tools/call" ≡ true
            → IsAllowed (offered outside event ++ seen) message)
  forwarded-IsAllowed {seen} {s} event t acts line message run e i =
      let sound =
        step-IsSound outside options seen s event (t, acts) (Runs-IsKnown outside options run) e in
      let (read_so, may) = sound.permitted line message i in
      (
        read_so.0,
        read_so.1,
        λ call.
            let (name, named, (seen_so, checked, right)) = may call in
            (
              name,
              named,
              listed_of_visible t name seen_so,
              λ pinned. sound.known.backed name (checked pinned),
              right,
            ),
      )
