-- ===== src/Server/Handler/Dispatch.antt =====
-- `handle_client_data` (group_server_comms.c): a hang-up, and the switch on the message type.
use socket_speak.Base.{
  ℕ, ◌-◌, List, [], ◌++◌, Bool, true, Option, none, some, length, get_elem?, set, take, drop, ltb,
  ◌==◌, if◌then◌else◌, not, cstr, strncpy_field, map,
}
use socket_speak.Base.Int.{ℤ, pos, negsuc, suc_ℤ}
use socket_speak.Lmp.Code
use socket_speak.Lmp.Frame.{Received, message, refused, stuck}
use socket_speak.Server.State.{Server, Group, GroupMember, nickname_max_len}
use socket_speak.Server.Pollset.{del_from_pfds}
use socket_speak.Server.History.{save_message_to_history, history_lines}
use socket_speak.Server.Handler.Frames.{
  Env, send_to, send_new_group_to_users, send_to_others, member_at,
}
use socket_speak.Server.Handler.Hangman.{handle_hangman, handle_guess, is_player}
use socket_speak.Server.Handler.Strings.{is_printable, legible}

-- The connection is closed, or its frame is refused.
unfoldable pub handle_hangup : Env → ℕ → Server → Option Server
handle_hangup env i s = elim (del_from_pfds i s) [
  | none ↦ none
  | some s' ↦ some (send_new_group_to_users env s')
]

-- LMP_NICK: `j` is the index of the sender among the members.
unfoldable pub handle_nick : Env → ℕ → GroupMember → List ℕ → Server → Server
handle_nick env j member text s = send_new_group_to_users env (record s {
  group = record s.group {
    members =
        set s.group.members j (record member { nickname = strncpy_field nickname_max_len text });
  };
})

-- `*(GroupMember *)buf`
unfoldable pub member_of_buffer : List ℕ → GroupMember
member_of_buffer buf = record { uid = take 9 buf; nickname = take nickname_max_len (drop 9 buf) }

add_member : Group → ℕ → GroupMember → Option Group
add_member g n member =
    if ltb n (length g.members)
    then some (record g { members = set g.members n member; member_count = suc_ℤ g.member_count })
    else none

-- The write `members[member_count]`, which nothing guards.
unfoldable pub append_member : ℤ → GroupMember → Group → Option Group
unfolding add_member
append_member (pos n) member g = add_member g n member
append_member (negsuc n) member g = none

-- LMP_GRP_INIT_MEMBER; the strings of the new member are printed.
unfoldable pub handle_init_member : Env → List ℕ → Server → Option Server
handle_init_member env buf s =
    if is_printable (member_of_buffer buf)
    then elim (append_member s.group.member_count (member_of_buffer buf) s.group) [
      | none ↦ none
      | some g ↦ some (send_new_group_to_users env (record s { group = g }))
    ]
    else none

-- LMP_GRP_LOAD_MSG: every line of the history, then the frame that ends the load.
unfoldable pub handle_load : Env → ℕ → Server → Server
handle_load env fd s =
    let lines =
      if env.history_reads
      then map
          (λ line. record { fd = fd; type = Code.grp_loading_msg; sender = 0; payload = cstr line })
          (history_lines s.history)
      else [] in
    send_to fd Code.grp_load_msg [] (record s { sends = s.sends ++ lines })

-- The case `default`, into which a stored message falls through.
unfoldable pub handle_other : Env → ℕ → ℕ → ℕ → List ℕ → Server → Server
handle_other env fd j type payload s = send_to_others env fd type j payload s

-- LMP_MSG: a guess if the sender plays; else the message is stored, if it can be, and passed on.
unfoldable pub handle_msg : Env → ℕ → ℕ → GroupMember → List ℕ → List ℕ → Server → Option Server
handle_msg env fd j member text payload s =
    if is_player s (cstr member.uid)
    then handle_guess env fd (cstr member.nickname) text s
    else some (
        handle_other env fd j Code.msg payload (record s {
          history =
              (save_message_to_history env.history_appends (cstr member.uid) text s.history).1;
        }))

-- The cases that read the sender's entry; `none` is an index behind the array, or a string that is
-- read behind its array.
unfoldable pub handle_member :
    Env → ℕ → ℕ → ℕ → List ℕ → List ℕ → Option GroupMember → Server → Option Server
handle_member env fd j type text payload none s = none
handle_member env fd j type text payload (some member) s =
    if not (legible type text member s)
    then none
    else if type == Code.nick
    then some (handle_nick env j member text s)
    else if type == Code.grp_load_msg
    then some (handle_load env fd s)
    else if type == Code.grp_hangman
    then some (handle_hangman env fd member text s)
    else handle_msg env fd j member text payload s

abbrev reads_member : ℕ → Bool
reads_member type =
    if type == Code.nick
    then true
    else if type == Code.grp_load_msg
    then true
    else if type == Code.grp_hangman
    then true
    else type == Code.msg

-- The switch; `buf` is the buffer and `len` the length of the message in it.
unfoldable pub handle_message : Env → ℕ → ℕ → ℕ → List ℕ → ℕ → Server → Option Server
handle_message env fd j type buf len s =
    if type == Code.grp_init_member
    then handle_init_member env buf s
    else if reads_member type
    then handle_member env fd j type (cstr buf) (take len buf) (member_at s j) s
    else some (handle_other env fd j type (take len buf) s)

-- `i` is the index in the poll array, `received` what `lmp_recv` made of the socket. The second
-- result is the index that the loop of `process_connections` goes on from.
unfoldable pub handle_client_data : Env → ℕ → Received → Server → Option (Server × ℕ)
handle_client_data env i stuck s = none
handle_client_data env i (refused e) s = elim (handle_hangup env i s) [
  | none ↦ none
  | some s' ↦ some (s', i - 1)
]
handle_client_data env i (message m) s = elim (get_elem? s.pfds i) [
  | none ↦ none
  | some fd ↦ elim (handle_message env fd (i - 1) m.type m.buf m.len s) [
    | none ↦ none
    | some s' ↦ some (s', i)
  ]
]
