-- ===== src/Net/Answers.antt =====
-- The thread of gserver.c that answers discoveries, with the group of that program
-- (group_server_comms.c).
use socket_speak.Base.{
  ℕ, ◌-◌, List, [], ◌∷◌, ◌++◌, All, Bool, true, false, Option, none, some, if◌then◌else◌, length,
  replicate, codes,
}
use socket_speak.Net.Calls.{returned, exits, Outcome}
use socket_speak.Net.Programs.{group_server_udp_reply}
use socket_speak.Net.Discovery.{Informs, reply_info-group_server_udp_reply}

-- A text in an array of zeros.
unfoldable pub in_array : ℕ → List ℕ → List ℕ
in_array size text = text ++ replicate (size - length text) 0

-- The memory of `current_group.info`.
unfoldable pub group_info : List ℕ
unfolding in_array
group_info = in_array 9 (codes "12345678") ++ in_array 32 (codes "Test Group")

-- group_server_UDP_reply from the start, with the answers that it sends until recvfrom fails. A
-- socket that cannot be had or bound ends the process.
unfoldable pub group_server_udp_socket :
    List ℕ → Option ℕ → Bool → List (List ℕ) → Outcome × List (List ℕ)
group_server_udp_socket info none bound datagrams =
    (record { result = exits; opened = []; closed = [] }, [])
group_server_udp_socket info (some sock) bound datagrams =
    if bound
    then (
      record { result = returned none; opened = sock ∷ []; closed = sock ∷ [] },
      group_server_udp_reply info datagrams,
    )
    else (record { result = exits; opened = sock ∷ []; closed = sock ∷ [] }, [])

-- A client learns the group from each answer.
group_server_udp_socket-Informs :
    (sock : Option ℕ) (bound : Bool) (datagrams : List (List ℕ))
    → All (Informs group_info) (group_server_udp_socket group_info sock bound datagrams).1
unfolding group_server_udp_socket
group_server_udp_socket-Informs none bound datagrams = tt
group_server_udp_socket-Informs (some sock) true datagrams =
    (reply_info-group_server_udp_reply group_info datagrams).0
group_server_udp_socket-Informs (some sock) false datagrams = tt
