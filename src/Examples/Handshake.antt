-- ===== src/Examples/Handshake.antt =====
-- ann starts a chat, and ben receives her uid (lmp.c, base_commands.c).
use socket_speak.Base.{◌≡◌, refl, [], ◌∷◌, ◌++◌, true, codes, arith}
use socket_speak.Process.{done, lookup}
use socket_speak.Directory.{read_user_file, path_in_user_directory}
use socket_speak.Uid.{uid_string_valid}
use socket_speak.Lmp.Code
use socket_speak.Chat.History.{Chat}
use socket_speak.Chat.Nick.{load_my_nick}
use socket_speak.Chat.Kept.{peer_dir_of}
use socket_speak.Program.World.{World, chat_of, with_chat}
use socket_speak.Program.Loop.{receive_message}
use socket_speak.Program.Start.{chat_loop_start}
use socket_speak.Program.Handshake.{receive_message-chat_loop_start}
use socket_speak.Examples.Directory.{os, directory, inside, inside-IsIn}
use socket_speak.Examples.Chat.{chat}
use socket_speak.Examples.Link.{setting, world}

abbrev ben : World
ben = with_chat (world (codes "ben") (codes "ann")) chat

no_nick : load_my_nick os inside ≡ done (codes "You", inside)
unfolding load_my_nick read_user_file path_in_user_directory lookup
no_nick = refl

receive_message-chat_loop_start_example :
    (d : Chat) × (chat_loop_start os 5 inside ≡ done d)
    × (uid_string_valid d.my_uid ≡ true)
    × (d.sends ≡ (Code.uid, d.my_uid) ∷ [])
    × (v : World) × (receive_message setting
          (record { type = Code.uid; sender = 0; len = 8; buf = d.my_uid ++ (0 ∷ []) })
          ben
        ≡ done v)
    × ((chat_of v).peer_uid ≡ d.my_uid)
    × ((chat_of v).peer_uid_ready ≡ true)
    × ((chat_of v).history_path ≡ peer_dir_of directory d.my_uid ++ codes "history.txt")
unfolding lookup
receive_message-chat_loop_start_example =
    receive_message-chat_loop_start os b'/' (codes "lmp/a/") (codes "You") 5 inside setting b'/'
      (codes "lmp/a/") [] ben inside-IsIn (omega arith) refl refl no_nick inside-IsIn (λ path. refl)
      (omega arith) (λ uid. refl)
