-- ===== src/Examples/Schedule.antt =====
-- A server from its start: a client joins, and hangs up; and a newcomer beside a client that hangs up.
use socket_speak.Base.{
  ◌-◌, ◌≡◌, refl, List, [], ◌∷◌, true, false, none, some, get_elem?, replicate, arith,
}
use socket_speak.Base.Int.{pos}
use socket_speak.Lmp.Code
use socket_speak.Lmp.Frame.{refused, closed}
use socket_speak.Server.State.{Server}
use socket_speak.Server.Handler.Dispatch.{handle_hangup, handle_init_member, member_of_buffer}
use socket_speak.Server.Pollset.{handle_new_connection}
use socket_speak.Server.Schedule.{Phase, busy, joins}
use socket_speak.Server.Newcomer.{handle_init_member-handle_hangup}
use socket_speak.Examples.Server.{env, server, nobody, pair, pair-Synced, hello, hello-is_printable}

abbrev empty : Server
empty = server (replicate 10 nobody) (pos 0) []

abbrev phases : List Phase
phases =
    joins 6 (record { type = Code.grp_init_member; sender = 0; len = 41; buf = hello })
    ∷ busy (λ n. false ∷ true ∷ [])
        (record { received = λ n. refused closed; accepted = λ n. none })
    ∷ []

-- Two clients and a newcomer; the first client hangs up.
handle_init_member-handle_hangup_example :
    (t : Server) × (u : Server) × (handle_hangup env 1 (handle_new_connection (some 6) pair)
      ≡ some t)
    × (handle_init_member env hello t ≡ some u)
    × (get_elem? u.pfds 1 ≡ some 6)
    × (get_elem? u.group.members (1 - 1) ≡ get_elem? pair.group.members 2)
    × (get_elem? u.pfds 2 ≡ get_elem? pair.pfds 2)
    × (get_elem? u.group.members (2 - 1) ≡ some (member_of_buffer hello))
handle_init_member-handle_hangup_example =
    handle_init_member-handle_hangup env 6 1 2 hello pair pair-Synced refl (omega arith)
      (omega arith) (omega arith) hello-is_printable
