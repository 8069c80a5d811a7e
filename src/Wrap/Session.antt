-- ===== src/Wrap/Session.antt =====
-- wrap.ts: a session, as the lines that come from either side in some order, and the signal to stop.
pub mod Sound
pub mod Backed
pub mod Forwarded
use mcp_authz.Base.{true, String, List, [], ◌++◌, Option, none, some, ◌≡◌}
use mcp_authz.Json.{Json}
use mcp_authz.Screen.{members}
use mcp_authz.Wrap.{Options, Outside, State, Act, start}
use mcp_authz.Wrap.Client.{client_line}
use mcp_authz.Wrap.Server.{tools_of, server_line}

pub data Event : Type 0 where
  client_says server_says : (line : String) → Event
  stops : Event

module _ (outside : Outside) (options : Options) where
  unfoldable pub step : State → Event → Option (State × List Act)
  step s (client_says line) = some (client_line outside options s line)
  step s (server_says line) = server_line outside options s line
  step s stops = some (record s { stopping = true }, [])

abbrev pub offered_in : Option Json → List Json
offered_in none = []
offered_in (some value) = tools_of (members value)

-- The tools that the server lists in a line of its own.
abbrev pub offered : Outside → Event → List Json
offered outside (server_says line) = offered_in (outside.parse line)
offered outside event = []

module _ (outside : Outside) (options : Options) where
  -- The states that a session leads to, with the tools that the server has listed.
  pub data Runs : List Json → State → Type 0 where
    begin : Runs [] start
    next :
        (seen : List Json) (s : State) (event : Event) (t : State) (acts : List Act)
        → Runs seen s
        → step outside options s event ≡ some (t, acts)
        → Runs (offered outside event ++ seen) t
