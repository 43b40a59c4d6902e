-- ===== src/Server/Handler/Frames.antt =====
-- Frames to one client and to several: `lmp_send` as the handlers call it, `grp_obj_send`
-- (group_commands.c), `send_new_group_to_users` and the broadcast loops (group_server_comms.c).
-- No handler looks at what a send returns: `grp_obj_send` answers with a CommandResult, which is
-- never below 0.
use socket_speak.Base.{
  ℕ, ◌%◌, List, [], ◌∷◌, ◌++◌, Bool, ◌||◌, Option, get_elem?, ◌==◌, if◌then◌else◌, map,
}
use socket_speak.Hangman.Words.{Draw}
use socket_speak.Server.State.{Server, Group, GroupMember, Send}
use socket_speak.Lmp.Code

-- What the environment of one call decides: the word file and `rand`, whether `malloc` succeeds,
-- whether the history file opens for appending and for reading; and the memory of a Group, which
-- the compiler lays out.
pub record Env : Type 0 where
  pub draw : Draw
  pub allocated : Bool
  pub history_appends : Bool
  pub history_reads : Bool
  pub image : Group → List ℕ
  pub listener : ℕ

unfoldable pub send_to : ℕ → ℕ → List ℕ → Server → Server
send_to fd type payload s = record s {
  sends = s.sends ++ (record { fd = fd; type = type; sender = 0; payload = payload } ∷ []);
}

-- The descriptors that a loop over the poll array reaches: all but the listener and `skipped`.
unfoldable pub others : ℕ → ℕ → List ℕ → List ℕ
others listener skipped [] = []
others listener skipped (fd ∷ fds) =
    if fd == listener || fd == skipped
    then others listener skipped fds
    else fd ∷ others listener skipped fds

-- One frame to each.
abbrev pub frames : ℕ → ℕ → List ℕ → List ℕ → List Send
frames type sender payload fds =
    map (λ fd. record { fd = fd; type = type; sender = sender; payload = payload }) fds

unfoldable pub send_new_group_to_users : Env → Server → Server
unfolding others
send_new_group_to_users env s = record s {
  sends =
      s.sends
      ++ frames Code.grp_obj 0 (env.image s.group) (others env.listener env.listener s.pfds);
}

-- A frame to everybody but the listener and one client; `sender` is its byte in the header.
unfoldable pub send_to_others : Env → ℕ → ℕ → ℕ → List ℕ → Server → Server
send_to_others env sender_fd type sender payload s = record s {
  sends = s.sends ++ frames type (sender % 256) payload (others env.listener sender_fd s.pfds);
}

-- The member at an index of the array.
abbrev pub member_at : Server → ℕ → Option GroupMember
member_at s i = get_elem? s.group.members i
