-- ===== src/Examples/Server.antt =====
-- A group with its clients on descriptors 4 and 5 (group_server_comms.c).
use socket_speak.Base.{
  some, length, All, contains, ℕ, ◌≡◌, refl, List, [], ◌∷◌, ◌++◌, true, false, none, arith, codes,
  replicate,
}
use socket_speak.Base.Int.{ℤ, pos}
use socket_speak.Hangman.Fsm.{Fsm, initial}
use socket_speak.Server.State.{GroupMember, Server}
use socket_speak.Server.Pollset.{handle_new_connection}
use socket_speak.Server.Handler.Frames.{Env}
use socket_speak.Server.Handler.Dispatch.{handle_init_member, member_of_buffer, handle_message}
use socket_speak.Server.Handler.Strings.{is_printable}
use socket_speak.Server.Synced.{Synced, connect_full}
use socket_speak.Server.Handled.{Survives, handle_message-Survives}

-- The word file is missing, and all else works.
abbrev pub env : Env
env = record {
  draw = record { file = none; rand = λ n. 0 };
  allocated = true;
  history_appends = true;
  history_reads = true;
  image = λ g. codes "group";
  listener = 3;
}

abbrev pub uid_a : List ℕ
uid_a = codes "0000000a"

abbrev pub uid_b : List ℕ
uid_b = codes "0000000b"

abbrev pub nobody : GroupMember
nobody = record { uid = replicate 9 0; nickname = replicate 32 0 }

abbrev pub ann : GroupMember
ann = record { uid = uid_a ++ (0 ∷ []); nickname = codes "ann" ++ replicate 29 0 }

abbrev pub ben : GroupMember
ben = record { uid = uid_b ++ (0 ∷ []); nickname = codes "ben" ++ replicate 29 0 }

abbrev pub no_game : Fsm
no_game = record {
  state = initial;
  hangman_word = [];
  guessed_letters = [];
  attempts_left = 0;
  revealed_word = [];
  hangman_round_initialized = false;
}

-- A server with given members, count and descriptors.
abbrev pub server : List GroupMember → ℤ → List ℕ → Server
server members count fds = record {
  pfds = fds;
  fd_size = 8;
  group = record {
    group_uid = codes "00000001";
    group_name = codes "friends";
    members = members;
    member_count = count;
  };
  hangman = no_game;
  hangman_old_response = [];
  users = uid_a ∷ [];
  history = [];
  sends = [];
}

abbrev pub pair : Server
pair = server (ann ∷ ben ∷ replicate 8 nobody) (pos 2) (3 ∷ 4 ∷ 5 ∷ [])

pair-strings : All (λ m. is_printable m ≡ true) pair.group.members
unfolding contains
pair-strings = (refl, (refl, (refl, (refl, (refl, (refl, (refl, (refl, (refl, (refl, tt))))))))))

pub pair-Synced : Synced pair
pair-Synced = record {
  array = refl;
  listening = omega arith;
  counted = refl;
  room = omega arith;
  capacity = omega arith;
  strings = pair-strings;
}

handle_message-Survives_example :
    Survives pair (handle_message env 4 0 0 (codes "a" ++ (0 ∷ [])) 1 pair)
handle_message-Survives_example =
    handle_message-Survives env 4 0 0 pair pair-Synced (ground arith) (codes "a" ++ (0 ∷ [])) 1
      (omega arith) (omega arith)

abbrev pub hello : List ℕ
hello = codes "0000000c" ++ (0 ∷ (codes "cat" ++ replicate 29 0))

pub hello-is_printable : is_printable (member_of_buffer hello) ≡ true
unfolding contains member_of_buffer
hello-is_printable = refl

-- Ten members.
abbrev full : Server
full = record (server (replicate 10 ann) (pos 10) (3 ∷ replicate 10 4)) { fd_size = 15 }

full-Synced : Synced full
unfolding contains
full-Synced = record {
  array = refl;
  listening = omega arith;
  counted = refl;
  room = omega arith;
  capacity = omega arith;
  strings = (refl, (refl, (refl, (refl, (refl, (refl, (refl, (refl, (refl, (refl, tt))))))))));
}

connect_full_example :
    (length (handle_new_connection (some 15) full).pfds ≡ 12)
    × (handle_init_member env hello (handle_new_connection (some 15) full) ≡ none)
connect_full_example = connect_full env 15 hello full full-Synced refl
