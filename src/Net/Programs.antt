-- ===== src/Net/Programs.antt =====
-- The connections of a whole program: `broadcast` and `listen_for_broadcast` (comms.c), the main
-- programs (main.c, gclient.c), `get_peer_ip` (lmp.c) and the thread that answers discoveries
-- (group_server_comms.c), on the answers that the calls get.
use socket_speak.Base.{
  ℕ, ◌-◌, List, [], ◌∷◌, ◌++◌, Bool, Option, none, some, ltb, ◌==◌, if◌then◌else◌, take, length,
  cstr, codes,
}
use socket_speak.Net.Address.{discovery_reply}
use socket_speak.Net.Calls.{returned, exits, waits, Outcome, all_done}

-- `address` is what `get_my_ip` returns, `options` are the two setsockopt calls. What sendto
-- answers is not looked at.
unfoldable pub broadcast : Option ℕ → Option ℕ → List Bool → Outcome
unfolding all_done
broadcast none sock options = record { result = exits; opened = []; closed = [] }
broadcast (some address) none options = record { result = exits; opened = []; closed = [] }
broadcast (some address) (some sock) options =
    if all_done options
    then record { result = returned none; opened = sock ∷ []; closed = sock ∷ [] }
    else record { result = exits; opened = sock ∷ []; closed = [] }

-- `steps` are two setsockopt calls and bind, `heard` is the datagram that recvfrom gives.
unfoldable pub listen_for_broadcast : Option ℕ → List Bool → Option (List ℕ) → Outcome
unfolding all_done
listen_for_broadcast none steps heard = record { result = exits; opened = []; closed = [] }
listen_for_broadcast (some sock) steps none = record {
  result = exits;
  opened = sock ∷ [];
  closed = if all_done steps then sock ∷ [] else [];
}
listen_for_broadcast (some sock) steps (some datagram) =
    if all_done steps
    then record { result = returned none; opened = sock ∷ []; closed = sock ∷ [] }
    else record { result = exits; opened = sock ∷ []; closed = [] }

-- The string in the buffer afterwards: recvfrom gives at most `size` bytes, and a full buffer loses
-- the last.
unfoldable pub heard_text : ℕ → List ℕ → List ℕ
heard_text size datagram = cstr (take (size - 1) (take size datagram))

-- One call after another: the second is made if the first returns.
abbrev pub then_next : Outcome → (Option ℕ → Outcome) → Outcome
then_next o next = elim o.result [
  | exits ↦ o
  | waits ↦ o
  | returned r ↦
      let p = next r in
      record { result = p.result; opened = o.opened ++ p.opened; closed = o.closed ++ p.closed }
]

-- The chat on a connection, which is closed behind it.
abbrev pub chat_on : ℕ → Outcome
chat_on sock = record { result = returned none; opened = []; closed = sock ∷ [] }

unfoldable pub connected : Option ℕ → Outcome
connected none = record { result = exits; opened = []; closed = [] }
connected (some sock) = chat_on sock

-- Without a connection in time, the peer that broadcasts is called.
unfoldable pub become_server : Outcome → Outcome → Option ℕ → Outcome
unfolding connected
become_server hears calls none = then_next hears (λ _. then_next calls connected)
become_server hears calls (some sock) = chat_on sock

-- main.c behind `init_user_information`: the outcomes of `broadcast`, `listen_for_connection`,
-- `listen_for_broadcast` and `connect_to`.
unfoldable pub main_program : Outcome → Outcome → Outcome → Outcome → Outcome
unfolding become_server
main_program announces listens hears calls =
    then_next announces (λ _. then_next listens (become_server hears calls))

-- tcp_socket > 0
unfoldable pub group_connected : Option ℕ → Outcome
group_connected none = record { result = returned none; opened = []; closed = [] }
group_connected (some sock) =
    if ltb 0 sock then chat_on sock else record { result = returned none; opened = []; closed = [] }

-- gclient.c: what `user_UDP_to_group_server` found, and the outcome of `user_TCP_to_group_server`.
unfoldable pub gclient_program : Bool × Outcome → Outcome → Outcome
unfolding group_connected
gclient_program (found, discovers) connects = then_next discovers (λ _.
    if found
    then then_next connects group_connected
    else record { result = returned none; opened = []; closed = [] })

-- What getpeername says; an IPv4 address with its text, if inet_ntop makes one.
pub data PeerAddress : Type 0 where
  no_peer ipv6 other_family : PeerAddress
  ipv4 : Option (List ℕ) → PeerAddress

unfoldable pub get_peer_ip : PeerAddress → Option (List ℕ)
get_peer_ip (ipv4 text) = text
get_peer_ip no_peer = none
get_peer_ip ipv6 = none
get_peer_ip other_family = none

-- What `chat` and `group_chat` print of it.
unfoldable pub connected_from : PeerAddress → List (List ℕ)
unfolding get_peer_ip
connected_from peer = elim (get_peer_ip peer) [
  | none ↦ []
  | some ip ↦ (codes "Connected from IP: " ++ (ip ++ codes "\n")) ∷ []
]

-- The loop of `group_server_UDP_reply`, whose buffer takes 1023 bytes: the answers to the datagrams
-- that come until recvfrom fails. An empty datagram is passed over.
unfoldable pub group_server_udp_reply : List ℕ → List (List ℕ) → List (List ℕ)
group_server_udp_reply info [] = []
group_server_udp_reply info (datagram ∷ rest) =
    let answers = group_server_udp_reply info rest in
    if length datagram == 0 then answers else elim (discovery_reply info (take 1023 datagram)) [
      | none ↦ answers
      | some answer ↦ answer ∷ answers
    ]
