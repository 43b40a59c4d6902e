-- ===== src/Net/Clients.antt =====
-- The descriptors of a group client (gclient.c, group_user_comms.c).
use socket_speak.Base.{
  ℕ, zero, suc, ◌≢◌, refl, ap, subst, ◌∙◌, inl, inr, [], List, Bool, true, false, Option, none,
  some, ltb, Bool-cases, if◌then◌else◌, arith,
}
use socket_speak.Net.Calls.{
  returned, Outcome, all_done, user_udp_to_group_server, user_tcp_to_group_server,
}
use socket_speak.Net.Leaks.{Accounts}
use socket_speak.Net.Programs.{then_next, group_connected, gclient_program}
use socket_speak.Net.Ends.{IsPaid, IsBare, Pays-Accounts, next-IsPaid}

group_connected-IsPaid : (mid : Option ℕ) → mid ≢ some 0 → IsPaid mid (group_connected mid)
unfolding group_connected
group_connected-IsPaid none h = λ fd. refl
group_connected-IsPaid (some zero) h = absurd (h refl)
group_connected-IsPaid (some (suc sock)) h = elim (Bool-cases (ltb 0 (suc sock))) [
  | inl above ↦ rw (above, group_connected) (λ fd. omega arith)
  | inr below ↦ absurd (ground arith)
]

outcomes-Accounts :
    (found : Bool) (discovers connects : Outcome)
    → IsPaid none discovers
    → IsBare discovers
    → IsPaid none connects
    → connects.result ≢ returned (some 0)
    → let o = gclient_program (found, discovers) connects in Accounts o.result o
unfolding gclient_program
outcomes-Accounts found discovers connects h bare k above =
    let o = gclient_program (found, discovers) connects in
    Pays-Accounts o.result o (
      next-IsPaid none discovers _ h (λ mid e.
        subst
          (λ m. IsPaid m (
            if found
            then then_next connects group_connected
            else record { result = returned none; opened = []; closed = [] }))
          (bare mid e) (reached found)))
  where
    reached :
        (b : Bool)
        → IsPaid none (
            if b
            then then_next connects group_connected
            else record { result = returned none; opened = []; closed = [] })
    reached true =
        next-IsPaid none connects group_connected k
          (λ mid e. group_connected-IsPaid mid (λ z. above (e ∙ ap returned z)))
    reached false = λ fd. refl

discovers-IsPaid :
    (sock : Option ℕ) (steps : List Bool) (whole : Bool)
    → IsPaid none (user_udp_to_group_server sock steps whole).1
      × IsBare (user_udp_to_group_server sock steps whole).1
unfolding user_udp_to_group_server
discovers-IsPaid none steps whole = (λ fd. refl, λ mid e. ground arith)
discovers-IsPaid (some sock) steps whole = elim (Bool-cases (all_done steps)) [
  | inl well ↦ rw (well, user_udp_to_group_server) (λ fd. refl, λ mid e. ground arith)
  | inr failed ↦ rw (failed, user_udp_to_group_server) (λ fd. refl, λ mid e. ground arith)
]

connects-IsPaid :
    (sock : Option ℕ) (option reached : Bool)
    → sock ≢ some 0
    → let o = user_tcp_to_group_server sock option reached in
      IsPaid none o × (o.result ≢ returned (some 0))
unfolding user_tcp_to_group_server
connects-IsPaid none option reached h = (λ fd. refl, λ e. cc)
connects-IsPaid (some sock) false reached h = (λ fd. omega arith, λ e. cc)
connects-IsPaid (some sock) true false h = (λ fd. omega arith, λ e. cc)
connects-IsPaid (some sock) true true h = (λ fd. omega arith, λ e. h (cc))

-- When the program of a group client has asked for a group, has called it if there was one, and
-- has chatted, every descriptor that it opened is closed, whatever the operating system answered.
-- The socket of the call is not the descriptor 0, which the program takes for a failure.
pub gclient_program-Accounts :
    (asking : Option ℕ) (steps : List Bool) (whole : Bool) (calling : Option ℕ)
    (option reached : Bool)
    → calling ≢ some 0
    → let o =
        gclient_program
          (user_udp_to_group_server asking steps whole)
          (user_tcp_to_group_server calling option reached) in
      Accounts o.result o
gclient_program-Accounts asking steps whole calling option reached above =
    let found = user_udp_to_group_server asking steps whole in
    let (asked, bare) = discovers-IsPaid asking steps whole in
    let (called, positive) = connects-IsPaid calling option reached above in
    outcomes-Accounts found.0 found.1 (user_tcp_to_group_server calling option reached) asked bare
      called positive
