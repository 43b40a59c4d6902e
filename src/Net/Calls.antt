-- ===== src/Net/Calls.antt =====
-- The functions that open connections, on the answers that the calls get. A call that fails is
-- `false` or `none`. `Outcome` is what a function returns, with the descriptors it opened and closed.
use socket_speak.Base.{ℕ, List, [], ◌∷◌, Bool, true, false, not, Option, none, some, if◌then◌else◌}

-- `returned none` is -1, or 0 where that is a failure.
pub data Returned : Type 0 where
  returned : Option ℕ → Returned
  exits waits : Returned

pub record Outcome : Type 0 where
  pub result : Returned
  pub opened : List ℕ
  pub closed : List ℕ

abbrev outcome : Returned → List ℕ → List ℕ → Outcome
outcome r opened closed = record { result = r; opened = opened; closed = closed }

-- poll(2) and accept(2) are called again after EINTR.
pub data PollAnswer : Type 0 where
  ready timed_out poll_interrupted poll_failed : PollAnswer

pub data AcceptAnswer : Type 0 where
  accepted : ℕ → AcceptAnswer
  accept_interrupted accept_failed : AcceptAnswer

-- The accept loop and what follows it; `reset` is the last setsockopt. With no answer left it waits.
unfoldable pub accept_loop : ℕ → Bool → List AcceptAnswer → Outcome
accept_loop sock reset [] = outcome waits (sock ∷ []) []
accept_loop sock reset (accepted fd ∷ rest) =
    if reset
    then outcome (returned (some fd)) (sock ∷ fd ∷ []) (sock ∷ [])
    else outcome (returned none) (sock ∷ fd ∷ []) (fd ∷ sock ∷ [])
accept_loop sock reset (accept_interrupted ∷ rest) = accept_loop sock reset rest
accept_loop sock reset (accept_failed ∷ rest) = outcome exits (sock ∷ []) (sock ∷ [])

unfoldable pub poll_loop : ℕ → Bool → List PollAnswer → List AcceptAnswer → Outcome
unfolding accept_loop
poll_loop sock reset [] accepts = outcome waits (sock ∷ []) []
poll_loop sock reset (ready ∷ rest) accepts = accept_loop sock reset accepts
poll_loop sock reset (timed_out ∷ rest) accepts = outcome (returned none) (sock ∷ []) (sock ∷ [])
poll_loop sock reset (poll_interrupted ∷ rest) accepts = poll_loop sock reset rest accepts
poll_loop sock reset (poll_failed ∷ rest) accepts = outcome exits (sock ∷ []) (sock ∷ [])

-- `set_up` is the success of setsockopt, bind and listen, which exit when they fail.
unfoldable pub listen_for_connection :
    Option ℕ → Bool → List PollAnswer → List AcceptAnswer → Bool → Outcome
unfolding poll_loop
listen_for_connection none set_up polls accepts reset = outcome exits [] []
listen_for_connection (some sock) set_up polls accepts reset =
    if set_up then poll_loop sock reset polls accepts else outcome exits (sock ∷ []) []

-- comms.c: `options` are the two setsockopt calls.
unfoldable pub connect_to : Option ℕ → Bool → Bool → Outcome
connect_to none options connected = outcome exits [] []
connect_to (some sock) options connected =
    if not options
    then outcome exits (sock ∷ []) []
    else if connected
    then outcome (returned (some sock)) (sock ∷ []) []
    else outcome (returned none) (sock ∷ []) []

-- group_user_comms.c
unfoldable pub user_tcp_to_group_server : Option ℕ → Bool → Bool → Outcome
user_tcp_to_group_server none option connected = outcome (returned none) [] []
user_tcp_to_group_server (some sock) option connected =
    if not option
    then outcome (returned none) (sock ∷ []) (sock ∷ [])
    else if connected
    then outcome (returned (some sock)) (sock ∷ []) []
    else outcome (returned none) (sock ∷ []) (sock ∷ [])

-- group_user_comms.c: `steps` are setsockopt, bind, setsockopt and sendto, in order; `whole` says that
-- a reply of the right size came in time. The result is whether a group was found.
unfoldable pub all_done : List Bool → Bool
all_done [] = true
all_done (b ∷ bs) = let rest = all_done bs in if b then rest else false

unfoldable pub user_udp_to_group_server : Option ℕ → List Bool → Bool → Bool × Outcome
unfolding all_done
user_udp_to_group_server none steps whole = (false, outcome (returned none) [] [])
user_udp_to_group_server (some sock) steps whole =
    if all_done steps
    then (whole, outcome (returned none) (sock ∷ []) (sock ∷ []))
    else (false, outcome (returned none) (sock ∷ []) (sock ∷ []))

-- group_server_comms.c: `steps` are setsockopt, bind and listen. The caller exits on a failure.
unfoldable pub get_listener_socket : Option ℕ → List Bool → Outcome
unfolding all_done
get_listener_socket none steps = outcome (returned none) [] []
get_listener_socket (some sock) steps =
    if all_done steps
    then outcome (returned (some sock)) (sock ∷ []) []
    else outcome (returned none) (sock ∷ []) []
