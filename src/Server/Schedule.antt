-- ===== src/Server/Schedule.antt =====
-- The server from its start, over any sequence of busy rounds and of clients that join.
use socket_speak.Base.{ℕ, suc, ◌≡◌, ◌≢◌, List, [], ◌∷◌, Bool, true, none, some}
use socket_speak.Lmp.Code
use socket_speak.Lmp.Frame.{Message}
use socket_speak.Server.State.{Server, GroupMember}
use socket_speak.Server.Handler.Frames.{Env}
use socket_speak.Server.Handler.Dispatch.{member_of_buffer}
use socket_speak.Server.Handler.Strings.{is_printable}
use socket_speak.Server.Clients.{clients}
use socket_speak.Server.Roster.{Settled, IsOrdinary}
use socket_speak.Server.Synced.{Synced}
use socket_speak.Server.Connections.{Calls}
use socket_speak.Server.Turns.{Moved}
use socket_speak.Server.Serving.{Poll, polling, serve_rounds}
use socket_speak.Server.Rounds.{accepting, introducing}

-- A round of the connected clients, or two rounds in which a client connects and sends its member.
pub data Phase : Type 0 where
  busy : (ℕ → List Bool) → Calls → Phase
  joins : ℕ → Message → Phase

abbrev pub polls_of : List Phase → List Poll
polls_of [] = []
polls_of (busy seen calls ∷ phases) = record { seen = some seen; calls = calls } ∷ polls_of phases
polls_of (joins newfd m ∷ phases) = accepting newfd ∷ introducing m ∷ polls_of phases

abbrev pub joins_of : List Phase → ℕ
joins_of [] = 0
joins_of (busy seen calls ∷ phases) = joins_of phases
joins_of (joins newfd m ∷ phases) = suc (joins_of phases)

-- No client connects in a busy round, nor introduces itself again.
abbrev pub IsCalm : Env → Phase → Type 0
IsCalm env (busy seen calls) =
    ((n : ℕ) → IsOrdinary (calls.received n)) × ((n : ℕ) → calls.accepted n ≡ none)
IsCalm env (joins newfd m) =
    (m.type ≡ Code.grp_init_member)
    × (newfd ≢ env.listener)
    × (is_printable (member_of_buffer m.buf) ≡ true)

-- Who joins.
abbrev pub comers : List Phase → List (ℕ × GroupMember)
comers [] = []
comers (busy seen calls ∷ phases) = comers phases
comers (joins newfd m ∷ phases) = (newfd, member_of_buffer m.buf) ∷ comers phases

abbrev Serves : Env → ℕ → List Phase → Server → Type 0
Serves env fuel phases s =
    (t : Server) × (serve_rounds env fuel (polls_of phases) s ≡ polling t)
    × Settled t
    × Moved (clients s) (clients t) (comers phases)
