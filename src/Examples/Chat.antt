-- ===== src/Examples/Chat.antt =====
-- A chat with the peer 0000000b (lmp.c, base_commands.c).
use socket_speak.Base.{
  ℕ, ◌≡◌, refl, List, [], ◌∷◌, ◌++◌, map, true, false, codes, cstr, str_eq, arith,
}
use socket_speak.Process.{Process, done, lookup}
use socket_speak.Directory.Paths.{mkdir}
use socket_speak.Lmp.Registry.{command_success}
use socket_speak.Uid.{is_space}
use socket_speak.Chat.History.{Chat, lmp_history_load}
use socket_speak.Chat.Nick.{lmp_save_nick, load_my_nick}
use socket_speak.Chat.Handlers.{uid_recv}
use socket_speak.Chat.Transcript.{
  Said, line_of, transcript, append_all, lmp_history_load-append_all,
}
use socket_speak.Chat.Kept.{peers_of, peer_dir_of, load_my_nick-lmp_save_nick}
use socket_speak.Chat.Handshake.{uid_recv-commands}
use socket_speak.Examples.Directory.{os, directory, inside, inside-IsIn}

abbrev pub chat : Chat
chat = record {
  peer_nick = codes "Peer";
  my_nick = codes "You";
  my_uid = codes "0000000a";
  peer_uid = [];
  peer_uid_ready = false;
  peer_dir = [];
  history_path = [];
  history_loaded = false;
  user_group_mode = false;
  sends = [];
  process = inside;
}

abbrev peer : List ℕ
peer = codes "0000000b"

uid_recv-commands_example :
    (d : Chat) × (uid_recv os (peer ++ (1 ∷ 2 ∷ [])) 8 chat ≡ done (command_success, d))
    × (d.peer_uid ≡ peer)
    × (d.history_path ≡ peer_dir_of directory peer ++ codes "history.txt")
    × (d.process.commands
        ≡ ([] ++ (mkdir (peers_of directory) ∷ [])) ++ (mkdir (peer_dir_of directory peer) ∷ []))
    × (d.peer_uid_ready ≡ true)
    × (d.history_loaded ≡ true)
unfolding cstr lookup
uid_recv-commands_example =
    uid_recv-commands os b'/' (codes "lmp/a/") b'0' (codes "000000b") (peer ++ (1 ∷ 2 ∷ [])) 8 chat
      inside-IsIn refl (λ path. refl) (omega arith) refl

abbrev old_talk : List Said
old_talk = (codes "You", codes "hi") ∷ []

abbrev new_talk : List Said
new_talk = (codes "Peer", codes "hello") ∷ (codes "You", codes "how are you") ∷ []

abbrev h_txt : List ℕ
h_txt = codes "h.txt"

abbrev kept : Chat
kept = record chat {
  history_path = h_txt;
  process = record inside { files = (h_txt, transcript old_talk) ∷ [] };
}

lmp_history_load-append_all_example :
    (lmp_history_load (append_all os new_talk kept)).process.prints
    ≡ [] ++ (codes "\r\u{1b}[K" ∷ map line_of (old_talk ++ new_talk))
unfolding lookup str_eq
lmp_history_load-append_all_example =
    lmp_history_load-append_all os b'h' (codes ".txt") old_talk new_talk kept refl (refl, refl)
      (omega arith) (omega arith)

load_my_nick-lmp_save_nick_example :
    (q : Process) × (lmp_save_nick os (codes "ann marie") inside ≡ done (true, q))
    × (load_my_nick os q ≡ done (codes "ann", q))
unfolding is_space
load_my_nick-lmp_save_nick_example =
    load_my_nick-lmp_save_nick os b'/' (codes "lmp/a/") b'a' (codes "nn") (codes " marie") inside
      inside-IsIn (omega arith) refl (refl, (refl, (refl, tt))) refl (omega arith)
