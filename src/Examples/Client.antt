-- ===== src/Examples/Client.antt =====
-- A client that loads two messages (group_commands.c).
use socket_speak.Base.{ℕ, ◌≡◌, refl, List, [], ◌∷◌, true, codes}
use socket_speak.Base.Int.{pos}
use socket_speak.Lmp.Code
use socket_speak.Client.Member.{
  Client, state_idle, loading_history, user_grp_load_msg_send, user_grp_load_msg_recv,
}
use socket_speak.Client.Loading.{load_messages, history_texts, load-session}

abbrev pub client : Client
client = record {
  loading_message_state = state_idle;
  user_group = record {
    group_uid = codes "00000001";
    group_name = codes "friends";
    members = record { uid = codes "0000000b"; nickname = codes "ben" } ∷ [];
    member_count = pos 1;
  };
  user_group_is_initialized = true;
  user_member_info = record { uid = codes "0000000a"; nickname = codes "ann" };
  prints = [];
  sends = [];
}

abbrev two_messages : List (List ℕ)
two_messages = (codes "0000000ahello\n") ∷ (codes "0000000bhi\n") ∷ []

load-session_example :
    (user_grp_load_msg_recv Code.grp_load_msg [] 14
      (load_messages two_messages 14 (user_grp_load_msg_send true Code.grp_load_msg [] client).1)).1
    ≡ record client {
      prints = loading_history ∷ history_texts client two_messages;
      sends = (Code.grp_load_msg, []) ∷ [];
    }
load-session_example = load-session two_messages Code.grp_load_msg [] [] 14 client refl
