-- ===== src/Examples/Session.antt =====
-- Two stored messages that a client loads.
use socket_speak.Base.{◌≡◌, refl, List, [], ◌∷◌, ◌++◌, map, true, length, drop, codes, All, arith}
use socket_speak.Lmp.Code
use socket_speak.Server.State.{Server}
use socket_speak.Server.Handler.Dispatch.{handle_load}
use socket_speak.Server.Archive.{Stored, IsStored, save_all}
use socket_speak.Client.Member.{loading_history, user_grp_load_msg_send}
use socket_speak.Session.{receive_all, shown, receive_all-handle_load}
use socket_speak.Examples.Server.{env, pair, uid_a, uid_b}
use socket_speak.Examples.Client.{client}

abbrev talk : List Stored
talk = (uid_a, codes "hi") ∷ (uid_b, codes "hello") ∷ []

talk-IsStored : All IsStored talk
talk-IsStored = omega arith

abbrev talked : Server
talked = record pair { history = save_all talk [] }

receive_all-handle_load_example :
    receive_all
      (λ p. [])
      (drop (length talked.sends) (handle_load env 4 talked).sends)
      (user_grp_load_msg_send true Code.grp_load_msg [] client).1
    ≡ record client {
      prints = client.prints ++ (loading_history ∷ map (shown client) talk);
      sends = client.sends ++ ((Code.grp_load_msg, []) ∷ []);
    }
receive_all-handle_load_example =
    receive_all-handle_load env 4 talk talked (λ p. []) client talk-IsStored refl refl refl
