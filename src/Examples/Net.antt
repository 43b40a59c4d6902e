-- ===== src/Examples/Net.antt =====
-- A user who hears another, and calls back (main.c, comms.c).
use socket_speak.Net.Address.{magic_word}
use socket_speak.Net.Clients.{gclient_program-Accounts}
use socket_speak.Net.Discovery.{Informs, requests, is_request, reply_info-group_server_udp_reply}
use socket_speak.Base.{◌≡◌, length, All, arith, [], ◌∷◌, true, some, codes}
use socket_speak.Net.Calls.{
  poll_interrupted, timed_out, listen_for_connection, user_udp_to_group_server,
  user_tcp_to_group_server, connect_to,
}
use socket_speak.Net.Leaks.{Accounts}
use socket_speak.Net.Programs.{
  broadcast, listen_for_broadcast, main_program, gclient_program, group_server_udp_reply,
}
use socket_speak.Net.Ends.{main_program-Accounts}

main_program-Accounts_example :
    let o =
      main_program
        (broadcast (some 1) (some 3) (true ∷ true ∷ []))
        (listen_for_connection (some 3) true (poll_interrupted ∷ timed_out ∷ []) [] true)
        (listen_for_broadcast (some 5) (true ∷ []) (some (codes "127.0.0.1")))
        (connect_to (some 6) true true) in
    Accounts o.result o
main_program-Accounts_example =
    main_program-Accounts (some 1) (some 3) (true ∷ true ∷ []) (some 3) true
      (poll_interrupted ∷ timed_out ∷ []) [] true (some 5) (true ∷ []) (some (codes "127.0.0.1"))
      (some 6) true true

gclient_program-Accounts_example :
    let o =
      gclient_program
        (user_udp_to_group_server (some 3) (true ∷ true ∷ true ∷ true ∷ []) true)
        (user_tcp_to_group_server (some 4) true true) in
    Accounts o.result o
gclient_program-Accounts_example =
    gclient_program-Accounts (some 3) (true ∷ true ∷ true ∷ true ∷ []) true (some 4) true true
      (ground arith)

-- Two requests, and a datagram that is none.
reply_info-group_server_udp_reply_example :
    let answers =
      group_server_udp_reply (codes "info") (magic_word ∷ codes "hello" ∷ magic_word ∷ []) in
    All (Informs (codes "info")) answers
    × (length answers ≡ requests (magic_word ∷ codes "hello" ∷ magic_word ∷ []))
    × (is_request magic_word ≡ true)
reply_info-group_server_udp_reply_example =
    reply_info-group_server_udp_reply (codes "info") (magic_word ∷ codes "hello" ∷ magic_word ∷ [])
