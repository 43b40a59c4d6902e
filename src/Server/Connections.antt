-- ===== src/Server/Connections.antt =====
-- The round over the poll array: `process_connections` (group_server_comms.c). What poll saw in a
-- descriptor is a Boolean beside it; it moves with the descriptor when a client leaves.
use socket_speak.Base.{
  ℕ, zero, suc, ◌-◌, List, [], ◌∷◌, ◌++◌, Bool, true, false, Option, none, some, ◌==◌, ltb,
  if◌then◌else◌, length, get_elem?, set, take,
}
use socket_speak.Lmp.Frame.{Received, message, refused, stuck}
use socket_speak.Server.State.{Server}
use socket_speak.Server.Pollset.{handle_new_connection}
use socket_speak.Server.Handler.Frames.{Env}
use socket_speak.Server.Handler.Dispatch.{handle_client_data}

-- What `lmp_recv` and `accept` give in each turn of the loop, numbered from the last one.
pub record Calls : Type 0 where
  pub received : ℕ → Received
  pub accepted : ℕ → Option ℕ

-- revents & (POLLIN | POLLHUP)
abbrev pub is_ready : ℕ → List Bool → Bool
is_ready i events = elim (get_elem? events i) [ none ↦ false | some ready ↦ ready ]

-- pfds[i] = pfds[fd_count - 1], of the events.
abbrev pub moved_events : ℕ → List Bool → List Bool
moved_events i events =
    take (length events - 1) (set events i (is_ready (length events - 1) events))

-- A new descriptor has seen nothing yet.
abbrev pub new_events : Option ℕ → List Bool → List Bool
new_events none events = events
new_events (some newfd) events = events ++ (false ∷ [])

-- The body of the loop and its `i++`: the server, the events and the next index.
unfoldable pub visit :
    Env → Received → Option ℕ → ℕ → List Bool → Server → Option (Server × List Bool × ℕ)
visit env received accepted i events s = elim (get_elem? s.pfds i) [
  | none ↦ none
  | some fd ↦
      if is_ready i events
      then if fd == env.listener
        then some (handle_new_connection accepted s, new_events accepted events, suc i)
        else elim (handle_client_data env i received s) [
          | none ↦ none
          | some (t, next) ↦
              some (t, (if next == i then events else moved_events i events), suc next)
        ]
      else some (s, events, suc i)
]

-- `outside` is an access outside an array, `waits` a read from a client that has begun a frame and
-- sends no more.
pub data Round : Type 0 where
  finished : Server → Round
  outside waits unfinished : Round

-- A turn that comes to no end: `lmp_recv` does not return, or an array is left.
stopped : Received → Round
stopped stuck = waits
stopped (message m) = outside
stopped (refused e) = outside

unfoldable pub process_connections : Env → Calls → ℕ → ℕ → List Bool → Server → Round
unfolding visit stopped
process_connections env calls zero i events s = unfinished
process_connections env calls (suc fuel) i events s = elim (ltb i (length s.pfds)) [
  | false ↦ finished s
  | true ↦ elim (visit env (calls.received fuel) (calls.accepted fuel) i events s) [
    | none ↦ stopped (calls.received fuel)
    | some (t, events', next) ↦ process_connections env calls fuel next events' t
  ]
]
