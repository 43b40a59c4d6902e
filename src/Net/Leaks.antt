-- ===== src/Net/Leaks.antt =====
-- Which descriptors stay open.
use socket_speak.Base.{
  inl, inr, Bool-cases, ℕ, ◌+◌, ◌≡◌, List, [], ◌∷◌, Bool, true, false, Option, none, some, ◌==◌,
  if◌then◌else◌, count, arith,
}
use socket_speak.Net.Calls.{
  Returned, returned, exits, waits, Outcome, PollAnswer, ready, timed_out, poll_interrupted,
  poll_failed, AcceptAnswer, accepted, accept_interrupted, accept_failed, accept_loop, poll_loop,
  listen_for_connection, user_tcp_to_group_server, user_udp_to_group_server, all_done,
}

abbrev pub handed_out : ℕ → Option ℕ → ℕ
handed_out fd none = 0
handed_out fd (some g) = if g == fd then 1 else 0

-- Once the function returns, every descriptor that it opened is closed, but the one it returns.
abbrev pub Accounts : Returned → Outcome → Type 0
Accounts (returned r) o = (fd : ℕ) → count fd o.opened ≡ count fd o.closed + handed_out fd r
Accounts exits o = Unit {0}
Accounts waits o = Unit {0}

accept_loop-Accounts :
    (sock : ℕ) (reset : Bool) (accepts : List AcceptAnswer)
    → let o = accept_loop sock reset accepts in Accounts o.result o
unfolding accept_loop
accept_loop-Accounts sock reset [] = tt
accept_loop-Accounts sock true (accepted fd ∷ rest) = λ g. omega arith
accept_loop-Accounts sock false (accepted fd ∷ rest) = λ g. omega arith
accept_loop-Accounts sock reset (accept_interrupted ∷ rest) = accept_loop-Accounts sock reset rest
accept_loop-Accounts sock reset (accept_failed ∷ rest) = tt

poll_loop-Accounts :
    (sock : ℕ) (reset : Bool) (polls : List PollAnswer) (accepts : List AcceptAnswer)
    → let o = poll_loop sock reset polls accepts in Accounts o.result o
unfolding poll_loop
poll_loop-Accounts sock reset [] accepts = tt
poll_loop-Accounts sock reset (ready ∷ rest) accepts = accept_loop-Accounts sock reset accepts
poll_loop-Accounts sock reset (timed_out ∷ rest) accepts = λ g. omega arith
poll_loop-Accounts sock reset (poll_interrupted ∷ rest) accepts =
    poll_loop-Accounts sock reset rest accepts
poll_loop-Accounts sock reset (poll_failed ∷ rest) accepts = tt

-- When listen_for_connection returns, whatever poll, accept and setsockopt answered, every
-- descriptor that it opened is closed, but the connection that it returns.
pub listen_for_connection-Accounts :
    (sock : Option ℕ) (set_up : Bool) (polls : List PollAnswer) (accepts : List AcceptAnswer)
    (reset : Bool)
    → let o = listen_for_connection sock set_up polls accepts reset in Accounts o.result o
unfolding listen_for_connection
listen_for_connection-Accounts none set_up polls accepts reset = tt
listen_for_connection-Accounts (some sock) true polls accepts reset =
    poll_loop-Accounts sock reset polls accepts
listen_for_connection-Accounts (some sock) false polls accepts reset = tt

-- The functions of a group client close what they do not return.
user_tcp_to_group_server-Accounts :
    (sock : Option ℕ) (option connected : Bool)
    → let o = user_tcp_to_group_server sock option connected in Accounts o.result o
unfolding user_tcp_to_group_server
user_tcp_to_group_server-Accounts none option connected = λ g. omega arith
user_tcp_to_group_server-Accounts (some sock) true true = λ g. omega arith
user_tcp_to_group_server-Accounts (some sock) true false = λ g. omega arith
user_tcp_to_group_server-Accounts (some sock) false connected = λ g. omega arith

user_udp_to_group_server-Accounts :
    (sock : Option ℕ) (steps : List Bool) (whole : Bool)
    → let o = (user_udp_to_group_server sock steps whole).1 in Accounts o.result o
unfolding user_udp_to_group_server
user_udp_to_group_server-Accounts none steps whole = λ g. omega arith
user_udp_to_group_server-Accounts (some sock) steps whole = elim (Bool-cases (all_done steps)) [
  | inl well ↦ rw (well, user_udp_to_group_server) (λ g. omega arith)
  | inr failed ↦ rw (failed, user_udp_to_group_server) (λ g. omega arith)
]
