-- ===== src/Client/Member.antt =====
-- What a group client keeps, and its command handlers (group_commands.c, group_user.c). The loops
-- over the members stop at the ten entries of the array.
use socket_speak.Base.{
  ℕ, ◌+◌, List, [], ◌∷◌, ◌++◌, map, Bool, true, ◌||◌, leb, if◌then◌else◌, codes, cstr, take, drop,
  decimal, str_eq,
}
use socket_speak.Base.Int.{ℤ, pos, negsuc}
use socket_speak.Lmp.Registry.{
  CommandResult, command_success, command_error, SendHandler, RecvHandler,
}
use socket_speak.Lmp.Code
use socket_speak.Server.State.{Group, GroupMember}

-- State_t
pub data Loading : Type 0 where
  state_idle state_requesting_load state_loading : Loading

-- The globals of group_user.c and group_commands.c, the texts printed and the frames sent.
pub record Client : Type 0 where
  pub loading_message_state : Loading
  pub user_group : Group
  pub user_group_is_initialized : Bool
  pub user_member_info : GroupMember
  pub prints : List (List ℕ)
  pub sends : List (ℕ × List ℕ)

-- printf
unfoldable pub say : List ℕ → Client → Client
say text c = record c { prints = c.prints ++ (text ∷ []) }

-- `lmp_send` on the socket, which `up` says to succeed, and the result made of it.
unfoldable pub send_frame : Bool → ℕ → List ℕ → Client → CommandResult × Client
send_frame up type payload c =
    if up
    then (command_success, record c { sends = c.sends ++ ((type, payload) ∷ []) })
    else (command_error, c)

-- A name, or what is printed for an empty one.
unfoldable pub or_else : List ℕ → List ℕ → List ℕ
or_else [] other = other
or_else (b ∷ bs) other = b ∷ bs

unfoldable pub print_int : ℤ → List ℕ
print_int (pos n) = decimal n
print_int (negsuc n) = b'-' ∷ decimal (n + 1)

-- members[0 .. member_count - 1]
unfoldable pub members_of : Group → List GroupMember
members_of g = elim g.member_count [ pos n ↦ take n g.members | negsuc n ↦ [] ]

abbrev member_line : GroupMember → List ℕ
member_line m =
    codes "- "
    ++ (or_else (cstr m.nickname) (codes "Unknown")
        ++ (codes " (UID: " ++ (or_else (cstr m.uid) (codes "Unknown") ++ codes ")\n")))

unfoldable pub print_group_info : Group → Client → Client
unfolding or_else print_int members_of
print_group_info g c = record c {
  prints =
      c.prints
      ++ ((b'['
            ∷ (or_else (cstr g.group_name) (codes "Unknown Group")
                ++ (codes "]\nCurrent members (" ++ (print_int g.member_count ++ codes "):\n"))))
          ∷ map member_line (members_of g));
}

unfoldable pub print_welcome_message : Group → Client → Client
unfolding say print_group_info
print_welcome_message g c = print_group_info g (say (codes "Welcome to group ") c)

-- `group_of` is the cast of the buffer to a Group, whose layout the compiler chooses.
unfoldable pub grp_obj_recv : (List ℕ → Group) → RecvHandler Client
unfolding say print_welcome_message
grp_obj_recv group_of code buf len c =
    let g = group_of buf in
    (
      command_success,
      if c.user_group_is_initialized
          then say
              (codes
                "[System]: Group information has been updated, type /gi to see the updated group information\n")
              (record c { user_group = g })
          else print_welcome_message g
              (record c { user_group = g; user_group_is_initialized = true }),
    )

unfoldable pub grp_info_send : SendHandler Client
unfolding print_group_info
grp_info_send code args c = (command_success, print_group_info c.user_group c)

unfoldable pub user_grp_init_send : Bool → Client → CommandResult × Client
unfolding send_frame
user_grp_init_send up c =
    send_frame up Code.grp_init_member (c.user_member_info.uid ++ c.user_member_info.nickname) c

abbrev pub loading_history : List ℕ
loading_history = codes "[System]: Loading History...\n"

unfoldable pub user_grp_load_msg_send : Bool → SendHandler Client
unfolding say send_frame
user_grp_load_msg_send up code args c = elim c.loading_message_state [
  | state_requesting_load ↦
      (command_success, say (codes "[System]: Already requesting load, please wait...\n") c)
  | state_loading ↦ (command_success, say (codes "[System]: Loading, please wait...\n") c)
  | state_idle ↦
      send_frame up Code.grp_load_msg []
        (record (say loading_history c) { loading_message_state = state_requesting_load })
]

unfoldable pub user_grp_load_msg_recv : RecvHandler Client
user_grp_load_msg_recv code buf len c = elim c.loading_message_state [
  | state_idle ↦ (command_success, c)
  | _ ↦ (command_success, record c { loading_message_state = state_idle })
]

-- The nickname of the first member with the uid.
unfoldable pub nickname_of : List GroupMember → List ℕ → List ℕ
nickname_of [] uid = codes "Unknown"
nickname_of (m ∷ ms) uid = if str_eq (cstr m.uid) uid then cstr m.nickname else nickname_of ms uid

-- The text printed for a message of the history: its first 8 bytes are the uid.
unfoldable pub history_text : GroupMember → Group → List ℕ → List ℕ
unfolding nickname_of members_of
history_text me group buf =
    let uid = cstr (take 8 buf) in
    let nickname =
      if str_eq (cstr me.uid) uid then codes "You" else nickname_of (members_of group) uid in
    b'[' ∷ (nickname ++ (codes "]: " ++ cstr (drop 8 buf)))

unfoldable pub user_grp_loading_msg_recv : RecvHandler Client
unfolding say history_text
user_grp_loading_msg_recv code buf len c = elim c.loading_message_state [
  | state_idle ↦ (
    command_success,
    say (codes "[System]: Received unexpected loading message, ignoring...\n") c,
  )
  | _ ↦ (
    command_success,
    say (history_text c.user_member_info c.user_group buf)
        (record c { loading_message_state = state_loading }),
  )
]

unfoldable pub user_grp_hangman_send : Bool → SendHandler Client
unfolding say send_frame
user_grp_hangman_send up code args c =
    if str_eq args (codes "start") || str_eq args (codes "join") || str_eq args (codes "exit")
    then send_frame up code args c
    else (
      command_error,
      say
          (codes
            "[Hangman System] Invalid command. Please use '/hangman start', '/hangman join', or '/hangman exit'\n")
          c,
    )

unfoldable pub user_grp_hangman_recv : RecvHandler Client
unfolding say
user_grp_hangman_recv code buf len c =
    if leb 1024 len
    then (command_error, c)
    else (command_success, say (cstr (take len buf) ++ codes "\n") c)
