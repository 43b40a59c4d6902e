-- ===== src/Examples/Group.antt =====
-- Clients of a group: two that introduce themselves, and the names that they show
-- (group_server_comms.c, group_user_comms.c).
use socket_speak.Base.{
  ℕ, ◌≡◌, refl, List, [], true, ◌∷◌, ◌++◌, some, get_elem?, replicate, cstr, codes, contains, arith,
}
use socket_speak.Process.{done}
use socket_speak.Lmp.Code
use socket_speak.Lmp.Frame.{message}
use socket_speak.Server.State.{Server, GroupMember}
use socket_speak.Server.Pollset.{handle_new_connection}
use socket_speak.Server.Handler.Frames.{frames, others, send_to_others}
use socket_speak.Server.Handler.Hangman.{is_player}
use socket_speak.Server.Handler.Dispatch.{
  handle_init_member, member_of_buffer, handle_member, handle_msg, handle_other, handle_message,
}
use socket_speak.Server.History.{save_message_to_history}
use socket_speak.Server.Clients.{clients}
use socket_speak.Server.Order.{handle_init_member_swapped}
use socket_speak.Server.Senders.{Low}
use socket_speak.Program.World.{World, chat_of}
use socket_speak.Program.Loop.{clear_line, named, amend, user_chat_line, group_receiver}
use socket_speak.Program.Heard.{message_of}
use socket_speak.Program.Delivery.{shown_for, prompt_of, group_receiver-user_chat_line}
use socket_speak.Program.Group.{amend-handle_message}
use socket_speak.Examples.Server.{env, ben, pair, pair-Synced, hello, hello-is_printable}
use socket_speak.Server.Handler.Strings.{is_printable, legible}
use socket_speak.Examples.Client.{client}
use socket_speak.Examples.Link.{setting, world}

abbrev hello_d : List ℕ
hello_d = codes "0000000d" ++ (0 ∷ (codes "dan" ++ replicate 29 0))

hello_d-is_printable : is_printable (member_of_buffer hello_d) ≡ true
unfolding contains member_of_buffer
hello_d-is_printable = refl

handle_init_member_swapped_example :
    let both = handle_new_connection (some 7) (handle_new_connection (some 6) pair) in
    (t : Server) × (u : Server) × (handle_init_member env hello_d both ≡ some t)
    × (handle_init_member env hello t ≡ some u)
    × (clients u
        ≡ clients pair ++ ((6, member_of_buffer hello_d) ∷ (7, member_of_buffer hello) ∷ []))
handle_init_member_swapped_example =
    handle_init_member_swapped env 6 7 hello hello_d pair pair-Synced (omega arith)
      hello-is_printable hello_d-is_printable

pair-Low : Low pair
pair-Low = record { low = tt }

-- A client that knows the group.
abbrev reader : World
reader = record (world (codes "ann") (codes "ben")) {
  client = record client { user_group = pair.group };
}

-- What ben's message makes of the server.
abbrev said : Server
said =
    handle_other env 5 1 Code.msg (codes "hi") (record pair {
      history = (save_message_to_history true (codes "0000000b") (codes "hi") []).1;
    })

said_done : handle_message env 5 1 Code.msg (codes "hi" ++ (0 ∷ [])) 2 pair ≡ some said
unfolding handle_message handle_member handle_msg is_player cstr legible contains
said_done = refl

said_sent :
    get_elem? said.sends 0
    ≡ some (record { fd = 4; type = Code.msg; sender = 1; payload = codes "hi" })
unfolding handle_other send_to_others others
said_sent = refl

amend-handle_message_example :
    (m : GroupMember) × (get_elem? reader.client.user_group.members 1 ≡ some m)
    × (amend 1 reader ≡ done (named m reader))
amend-handle_message_example =
    amend-handle_message env 5 1 Code.msg (codes "hi" ++ (0 ∷ [])) 2 pair said 0
      (record { fd = 4; type = Code.msg; sender = 1; payload = codes "hi" }) reader pair-Low
      (omega arith) said_done said_sent refl

-- ben types a line, which ann's client shows.
group_receiver-user_chat_line_example :
    (w' : World) × (user_chat_line setting (codes "hi") reader ≡ done w')
    × ((chat_of w').sends ≡ [] ++ ((Code.msg, codes "hi") ∷ []))
    × (t : Server) × (handle_message env 5 1 Code.msg (codes "hi" ++ (0 ∷ [])) 2 pair ≡ some t)
    × (t.sends ≡ [] ++ frames Code.msg 1 (codes "hi") (others 3 5 pair.pfds))
    × (v' : World) × (group_receiver setting 0
          (message (message_of 2 1 (codes "hi") []) ∷ [])
          reader
        ≡ done v')
    × ((chat_of v').process.prints
        ≡ [] ++ (clear_line ∷ shown_for ben (codes "hi") ∷ prompt_of reader ∷ []))
unfolding is_player contains
group_receiver-user_chat_line_example =
    group_receiver-user_chat_line setting setting env 5 1 0 (codes "hi") [] [] pair ben reader
      reader refl (omega arith) (ground arith) (omega arith) refl (omega arith) refl refl refl
