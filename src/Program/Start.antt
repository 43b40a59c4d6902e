-- ===== src/Program/Start.antt =====
-- How a user's program begins: the uid of the user (uid.c, user_manager.c), the command line
-- (main.c), the nickname (gclient.c), and the start of the chat loops (lmp.c, group_user_comms.c).
use socket_speak.Base.{
  ℕ, List, [], ◌∷◌, true, false, ◌==◌, if◌then◌else◌, codes, take, replicate, str_eq, cstr,
  strncpy_field,
}
use socket_speak.Process.{Os, Process, Result, done, exited, ◌>>=◌, say}
use socket_speak.Directory.{set_program_username, read_user_file, write_user_file}
use socket_speak.Uid.{uid_string_valid, stored_uid, uid_int_to_hex, generate_uid}
use socket_speak.Server.State.{GroupMember, nickname_max_len}
use socket_speak.Client.Member.{user_grp_init_send}
use socket_speak.Chat.History.{Chat}
use socket_speak.Chat.Nick.{load_my_nick}
use socket_speak.Chat.Handlers.{lmp_send_uid}
use socket_speak.Program.World.{World, chat_of, with_chat, on_client}

abbrev pub uid_file : List ℕ
uid_file = codes "uid.txt"

-- `get_uid` on the user's files; `r` is what `rand` returns.
unfoldable pub current_uid : Os → ℕ → Process → Result (List ℕ × Process)
current_uid os r p = do
  (file, q) ← read_user_file os uid_file p
  let made = uid_int_to_hex (generate_uid r)
  if uid_string_valid (stored_uid file)
      then done (stored_uid file, q)
      else (write_user_file os uid_file made q >>= λ (opened, s).
          if opened then done (made, s) else exited)

-- UserInformation, an array of nine bytes.
unfoldable pub init_user_information : Os → ℕ → Process → Result (List ℕ × Process)
unfolding current_uid
init_user_information os r p = do (uid, q) ← current_uid os r p; done (strncpy_field 9 uid, q)

unfoldable pub flush_user_information : List ℕ
flush_user_information = replicate 9 0

named_user : Os → List ℕ → List ℕ → Process → Result Process
named_user os flag [] p = exited
named_user os flag (b ∷ name) p =
    if str_eq flag (codes "-u") then set_program_username os (b ∷ name) p else exited

-- `argv` behind the program's name.
unfoldable pub flag_handler : Os → List (List ℕ) → Process → Result Process
unfolding named_user
flag_handler os [] p =
    done (say (codes "No username provided (-u). Using default username: 'default'\n") p)
flag_handler os (flag ∷ name ∷ []) p = named_user os flag name p
flag_handler os _ p = exited

-- nickname[strcspn(nickname, "\n")] = 0
unfoldable pub first_line : List ℕ → List ℕ
first_line [] = []
first_line (b ∷ bs) = let rest = first_line bs in if b == b'\n' then [] else b ∷ rest

-- The nickname that gclient takes from what was typed. An end of the input leaves the array as it
-- was, so that some line is assumed.
unfoldable pub chosen_nickname : List ℕ → List ℕ
unfolding first_line
chosen_nickname line = elim (first_line (take 31 (cstr line))) [
  | [] ↦ codes "test_user"
  | b ∷ bs ↦ b ∷ bs
]

-- user_member_info
unfoldable pub member_of_user : List ℕ → List ℕ → GroupMember
member_of_user uid nickname = record {
  uid = strncpy_field 9 uid;
  nickname = strncpy_field nickname_max_len nickname;
}

-- The start of gclient.c: the directory of the user, the uid, and the member that is sent.
unfoldable pub gclient_member : Os → ℕ → List ℕ → Process → Result (GroupMember × Process)
unfolding init_user_information chosen_nickname member_of_user
gclient_member os r line p = do
  let nickname = chosen_nickname line
  q ← set_program_username os nickname p
  (uid, s) ← init_user_information os r q
  done (member_of_user (cstr uid) nickname, s)

-- The start of `chat_loop`, to the sending of the own uid. The directory of the peer is not set.
unfoldable pub chat_loop_start : Os → ℕ → Process → Result Chat
unfolding current_uid
chat_loop_start os r p = do
  (nick, q) ← load_my_nick os p
  (uid, s) ← current_uid os r q
  done
      (lmp_send_uid os (record {
        peer_nick = codes "Peer";
        my_nick = nick;
        my_uid = take 8 uid;
        peer_uid = [];
        peer_uid_ready = false;
        peer_dir = [];
        history_path = [];
        history_loaded = false;
        user_group_mode = false;
        sends = [];
        process = s;
      })).1

-- The start of `chat_loop_user` by `group_chat`: what is not set here keeps the content of the
-- memory, the path of the history file too.
unfoldable pub chat_loop_user_start : Os → ℕ → World → Result World
unfolding current_uid
chat_loop_user_start os r w = do
  (uid, p) ← current_uid os r (chat_of w).process
  let c = record (chat_of w) {
    my_nick = codes "You";
    my_uid = take 8 uid;
    peer_uid_ready = false;
    user_group_mode = true;
    process = p;
  }
  on_client (user_grp_init_send os.sends) (with_chat w c) >>= λ (_, v). done v
