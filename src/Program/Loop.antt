-- ===== src/Program/Loop.antt =====
-- The loops of a user's program: `receiver` and `chat_loop` (lmp.c), and the versions for a group
-- (group_user_comms.c). A list of frames is what `lmp_recv` gives as far as it has returned, a list
-- of lines is what `fgets` gives until it fails.
use socket_speak.Base.{
  ℕ, ◌+◌, ◌-◌, ◌/◌, ◌%◌, List, [], ◌∷◌, ◌++◌, none, some, get_elem?, ltb, ◌==◌, if◌then◌else◌,
  codes, cstr, strip_newline,
}
use socket_speak.Process.{Result, done, fault, diverged, ◌>>=◌}
use socket_speak.Lmp.Registry.{
  CommandResult, command_success, command_error, command_unrecognized, dispatch_send, dispatch_recv,
}
use socket_speak.Lmp.Code
use socket_speak.Lmp.Frame.{Message, Received, message, refused, stuck}
use socket_speak.Lmp.Lines.{user_line}
use socket_speak.Server.State.{GroupMember}
use socket_speak.Chat.History.{print}
use socket_speak.Chat.Handlers.{msg_send}
use socket_speak.Program.World.{Setting, World, chat_of, with_chat, command_table}

abbrev pub clear_line : List ℕ
clear_line = codes "\r\u{1b}[K"

abbrev pub printed : List ℕ → World → World
printed text w = with_chat w (print text (chat_of w))

unfoldable pub print_prompt : World → World
print_prompt w = printed (clear_line ++ (b'[' ∷ ((chat_of w).my_nick ++ codes "]: "))) w

-- `%02X` of a byte.
abbrev upper_hex : ℕ → ℕ
upper_hex d = if ltb d 10 then b'0' + d else b'A' + (d - 10)

unfoldable pub warn : ℕ → CommandResult → World → World
warn type command_success w = w
warn type command_error w = w
warn type command_unrecognized w =
    printed
      (codes "[warning]: unrecognized message type 0x"
        ++ (upper_hex (type / 16 % 16) ∷ upper_hex (type % 16) ∷ codes "\n"))
      w

-- What both receivers do with a message.
unfoldable pub receive_message : Setting → Message → World → Result World
unfolding warn print_prompt
receive_message g m w =
    let (r, next) =
      dispatch_recv (command_table g) m.type m.buf m.len (done (printed clear_line w)) in
    next >>= λ v. done (print_prompt (warn m.type r v))

abbrev pub disconnected : World → World
disconnected w = printed (codes "*** Peer disconnected.\n") w

unfoldable pub receiver : Setting → List Received → World → Result World
receiver g [] w = done w
receiver g (message m ∷ rest) w = receive_message g m w >>= λ v. receiver g rest v
receiver g (refused e ∷ rest) w = done (disconnected w)
receiver g (stuck ∷ rest) w = diverged

abbrev pub named : GroupMember → World → World
named m w = with_chat w (record (chat_of w) { peer_nick = cstr m.nickname; peer_uid = cstr m.uid })

-- The two memcpy from `user_group.members[sender_i]`, an array of ten.
unfoldable pub amend : ℕ → World → Result World
amend sender w = elim (get_elem? w.client.user_group.members sender) [
  | none ↦ fault
  | some m ↦ done (named m w)
]

-- The number is what `sender_i` holds, which a failed `group_lmp_recv` leaves as it is.
unfoldable pub group_receiver : Setting → ℕ → List Received → World → Result World
unfolding amend
group_receiver g sender [] w = done w
group_receiver g sender (message m ∷ rest) w =
    amend m.sender w >>= λ v. receive_message g m v >>= λ u. group_receiver g m.sender rest u
group_receiver g sender (refused e ∷ rest) w = amend sender w >>= λ v. done (disconnected v)
group_receiver g sender (stuck ∷ rest) w = diverged

-- What is printed for the result of a command.
unfoldable pub report : List ℕ → CommandResult → World → World
report line command_success w = w
report line command_error w = printed (codes "Error executing '" ++ (line ++ codes "'\n")) w
report line command_unrecognized w =
    printed (codes "Unrecognized command '" ++ (line ++ codes "'\n")) w

-- The command behind a slash.
unfoldable pub run_line : Setting → List ℕ → World → Result World
unfolding report
run_line g line w =
    let (r, next) = dispatch_send (command_table g) line (done w) in
    next >>= λ v. done (report (b'/' ∷ line) r v)

abbrev pub send_plain : Setting → List ℕ → World → World
send_plain g line w = with_chat w (msg_send g.os Code.msg line (chat_of w)).1

-- One line of `chat_loop`: a command, or a message.
unfoldable pub chat_line : Setting → List ℕ → World → Result World
unfolding run_line
chat_line g [] w = done (send_plain g [] w)
chat_line g (b ∷ bs) w = if b == b'/' then run_line g bs w else done (send_plain g (b ∷ bs) w)

-- One line of `chat_loop_user`, where a message is the command `msg`.
unfoldable pub user_chat_line : Setting → List ℕ → World → Result World
unfolding run_line
user_chat_line g line w = elim (user_line line) [
  | none ↦ done (printed (codes "Message too long\n") w)
  | some command ↦ run_line g command w
]

unfoldable pub chat_lines : Setting → List (List ℕ) → World → Result World
unfolding chat_line print_prompt
chat_lines g [] w = done (print_prompt w)
chat_lines g (line ∷ lines) w =
    chat_line g (strip_newline (cstr line)) (print_prompt w) >>= λ v. chat_lines g lines v

unfoldable pub user_chat_lines : Setting → List (List ℕ) → World → Result World
unfolding user_chat_line print_prompt
user_chat_lines g [] w = done (print_prompt w)
user_chat_lines g (line ∷ lines) w =
    user_chat_line g (strip_newline (cstr line)) (print_prompt w) >>= λ v. user_chat_lines g lines v
