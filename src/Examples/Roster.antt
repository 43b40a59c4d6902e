-- ===== src/Examples/Roster.antt =====
-- A client that joins two others, a client that leaves, and the messages of a group
-- (group_server_comms.c, group_server.c).
use socket_speak.Base.{
  ℕ, ◌+◌, ◌≤◌, ◌≡◌, [], ◌∷◌, length, get_elem?, count, ◌||◌, ◌==◌, some, if◌then◌else◌, codes,
  arith,
}
use socket_speak.Lmp.Code
use socket_speak.Server.State.{Server}
use socket_speak.Server.Pollset.{handle_new_connection}
use socket_speak.Server.Handler.Dispatch.{
  handle_init_member, handle_other, handle_client_data, member_of_buffer,
}
use socket_speak.Lmp.Frame.{refused, closed}
use socket_speak.Server.Clients.{clients}
use socket_speak.Server.Roster.{
  enters, leaves, Change, Settled, here, step, connects, reads, handle_client_data-Settled,
  connect-Settled, Changes, Reach-Changes,
}
use socket_speak.Server.Broadcast.{count_to, handle_other-count}
use socket_speak.Examples.Server.{env, pair, pair-Synced, hello, hello-is_printable}

settled : Settled pair
settled = record { synced = pair-Synced; idle = λ u. ground arith }

-- The first client leaves.
gone :
    (t : Server) × (next : ℕ) × (handle_client_data env 1 (refused closed) pair ≡ some (t, next))
    × Settled t
    × Change (leaves 0) (clients pair) (clients t)
    × (length t.pfds + 1 ≡ length pair.pfds + next)
    × (get_elem? t.pfds 0 ≡ get_elem? pair.pfds 0)
    × (length t.pfds ≤ length pair.pfds)
gone = handle_client_data-Settled env pair settled 0 (refused closed) (omega arith) tt

fewer : length gone.0.pfds ≤ 10
fewer = let (t, next, done, settled', change, size, first, few) = gone in omega (arith, few)

-- Another client joins.
third :
    (t : Server) × (handle_init_member env hello (handle_new_connection (some 6) gone.0) ≡ some t)
    × Settled t
    × Change (enters 6 (member_of_buffer hello)) (clients gone.0) (clients t)
third = connect-Settled env gone.0 gone.3 6 hello fewer hello-is_printable

Reach-Changes_example :
    Settled third.0
    × Changes (clients pair) (enters 6 (member_of_buffer hello) ∷ leaves 0 ∷ []) (clients third.0)
Reach-Changes_example =
    Reach-Changes
      (step (step here env (reads 0 (refused closed) gone.1 (omega arith) tt gone.2)) env
        (connects 6 hello fewer hello-is_printable third.1))
      settled

handle_other-count_example :
    count_to 5 (handle_other env 4 1 Code.msg (codes "hi") pair).sends
    ≡ count_to 5 pair.sends + (if 5 == env.listener || 5 == 4 then 0 else count 5 pair.pfds)
handle_other-count_example = handle_other-count env 4 1 Code.msg 5 (codes "hi") pair
