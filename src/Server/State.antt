-- ===== src/Server/State.antt =====
-- What the group server keeps (group.h, group_server_comms.c).
use socket_speak.Base.{ℕ, List}
use socket_speak.Base.Int.{ℤ}
use socket_speak.Hangman.Fsm.{Fsm}

abbrev pub max_group_members : ℕ
max_group_members = 10

abbrev pub nickname_max_len : ℕ
nickname_max_len = 32

-- GroupMember: two arrays of 9 and 32 bytes.
pub record GroupMember : Type 0 where
  pub uid : List ℕ
  pub nickname : List ℕ

-- Group; `members` is the whole array of ten.
pub record Group : Type 0 where
  pub group_uid : List ℕ
  pub group_name : List ℕ
  pub members : List GroupMember
  pub member_count : ℤ

-- A frame that the server sends.
pub record Send : Type 0 where
  pub fd : ℕ
  pub type : ℕ
  pub sender : ℕ
  pub payload : List ℕ

-- The poll array up to `fd_count`, its capacity, the globals, the history file, and the frames sent
-- so far, the first one first.
pub record Server : Type 0 where
  pub pfds : List ℕ
  pub fd_size : ℕ
  pub group : Group
  pub hangman : Fsm
  pub hangman_old_response : List ℕ
  pub users : List (List ℕ)
  pub history : List ℕ
  pub sends : List Send
