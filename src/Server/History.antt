-- ===== src/Server/History.antt =====
-- The history file of the group: `save_message_to_history` (group_server.c) and the lines that a
-- load sends back (group_server_comms.c).
use socket_speak.Base.{
  ℕ, List, [], ◌∷◌, ◌++◌, Bool, leb, ◌==◌, if◌then◌else◌, length, fgets_lines, not,
}
use socket_speak.Lmp.Frame.{Status, success, failure}
use socket_speak.Server.Users.{uid_length}

-- sizeof(message_format.message)
abbrev pub message_size : ℕ
message_size = 1016

-- `opened` says whether `fopen` succeeds, `history` is the file. The strings are `uid` and
-- `message`; the record that `fprintf` prints as one string is the two behind one another.
unfoldable pub save_message_to_history : Bool → List ℕ → List ℕ → List ℕ → Status × List ℕ
save_message_to_history opened uid message history =
    if not opened
    then (failure, history)
    else if not (length uid == uid_length)
    then (failure, history)
    else if leb message_size (length message)
    then (failure, history)
    else (success, history ++ (uid ++ (message ++ (b'\n' ∷ []))))

-- The loop over `fgets(line, 1024, file)`.
unfoldable pub history_lines : List ℕ → List (List ℕ)
history_lines history = fgets_lines 1024 history
