-- ===== src/Server/Serving.antt =====
-- The loop of `group_server_TCP_listen` (group_server_comms.c), over the answers of poll.
use socket_speak.Base.{ℕ, ◌+◌, List, [], ◌∷◌, Bool, true, false, Option, none, some, length}
use socket_speak.Server.State.{Server, max_group_members}
use socket_speak.Server.Handler.Frames.{Env}
use socket_speak.Server.Connections.{
  Calls, finished, outside, waits, unfinished, process_connections,
}

-- What poll sees in so many descriptors, unless it fails, and the calls of the round behind it.
pub record Poll : Type 0 where
  pub seen : Option (ℕ → List Bool)
  pub calls : Calls

-- The server waits for the next poll, has exited, or was stopped in a round.
pub data Served : Type 0 where
  polling : Server → Served
  poll_failed no_listener went_outside waits_for_client went_on : Served

unfoldable pub serve_rounds : Env → ℕ → List Poll → Server → Served
serve_rounds env fuel [] s = polling s
serve_rounds env fuel (p ∷ polls) s = elim p.seen [
  | none ↦ poll_failed
  | some seen ↦ elim (process_connections env p.calls fuel 0 (seen (length s.pfds)) s) [
    | outside ↦ went_outside
    | waits ↦ waits_for_client
    | unfinished ↦ went_on
    | finished t ↦ serve_rounds env fuel polls t
  ]
]

abbrev pub max_group_connections : ℕ
max_group_connections = max_group_members + 5

-- `listens` says whether `get_listener_socket` gave the socket.
unfoldable pub group_server_tcp_listen : Env → Bool → ℕ → List Poll → Server → Served
unfolding serve_rounds
group_server_tcp_listen env false fuel polls s = no_listener
group_server_tcp_listen env true fuel polls s =
    serve_rounds env fuel polls
      (record s { pfds = env.listener ∷ []; fd_size = max_group_connections })
