-- ===== src/Lib.antt =====
-- Socket Speak: a chat program over TCP with its own message protocol (LMP), a group server with
-- its clients, and a game of Hangman that the server runs for the members of a group.
--
-- How the parts interact. A client turns a line of text into a command (lmp.c `dispatch_send`)
-- whose handler sends a frame (`lmp_send`). The group server polls its sockets, reads a frame
-- from a ready one (`lmp_recv`) and handles it (group_server_comms.c `handle_client_data`): it
-- keeps the group and its members, stores messages in the history, plays Hangman (hangman.c) and
-- sends frames to the clients (`lmp_send`, `group_lmp_send`). A client reads these with
-- `group_lmp_recv` (group_user_comms.c) and passes them to the handler of their code
-- (`dispatch_recv`).
--
-- Which file models which part:
-- - Base: lists, C strings and the tests on numbers that all parts share. Base/Text is what the
--   code uses of the C library (`strcmp`, `strncpy`, `fgets`, `tolower`), Base/Int the C `int`
--   of the member count.
-- - Hangman (hangman.h, hangman.c): Fsm is HANGMAN_FSM, Guess the blocks of `update_hangman`
--   that change the record, Screen the texts of its replies, Words is `set_random_word`, Process
--   `update_hangman`, `process_hangman_state` and `hangman_finish_broadcast`. Rules states the
--   game without the code; Refines, Verdicts, Endgame, Rounds, Choice and Sizes are the proofs.
-- - Lmp (lmp.h, lmp.c, commands_registry.c, and the frame functions of group_server_comms.c and
--   group_user_comms.c): Socket is the stream, ReadAll `read_all`, Frame the functions that send
--   and receive a frame, Registry the command table, Code the command codes, Commands the
--   registrations of `init_commands`. Recv, RoundTrip, Exchange, Dispatch and Lines are the
--   proofs.
-- - Server (group_server_comms.c, group_server.c, group.h): Users is the list of players, State
--   the globals of the server, Pollset the poll array, History `save_message_to_history`,
--   Handler the cases of `handle_client_data`. Clients is the view of the server as pairs of a
--   descriptor and its member, Roster the events of the server as a step relation on it,
--   Connections the round of `process_connections`, Serving the loop of
--   `group_server_TCP_listen`; Synced, Departure, Handled, Archive, Broadcast, Turns, Order,
--   Senders, Newcomer, Rounds, Schedule, Replies and Game are the proofs.
-- - Client (group_commands.c, group_user.c): Member is the state of a group client and its
--   handlers, Loading the load of the history.
-- - Session: a load of the history, from the file of the server to the screen of a client.
-- - Uid (uid.c): the user id and the file that keeps it.
-- - Process: the files, commands and output of a user's process, and how a function of it can
--   end.
-- - Directory (directory_manager.c, and `init_group_server` of group_server.c): the directories
--   of a user and of a group. Paths are the proofs.
-- - Chat (lmp.c, base_commands.c): History is LMPContext and the history file, Nick the files of
--   nicknames, Handlers the handlers of base_commands.c. Transcript, Kept and Handshake are the
--   proofs.
-- - Stickers (sticker_commands.c): Table is the table and its file, Editor the text that is
--   typed, Commands the command `sticker`. RoundTrip, Session and Sending are the proofs.
-- - Net (comms.c, group_user_comms.c, group_server_comms.c, main.c, gclient.c, gserver.c):
--   Address is `get_my_ip` and the answer to a discovery, Calls the functions that open
--   connections, Programs the connections of the main programs, Discovery what a client takes
--   from the answer of a server, Answers the thread of gserver.c that answers. Leaks, Ends,
--   Clients and Discovery are the proofs.
-- - Program: a user's program as a whole. World is its globals and the command table of
--   `init_commands` with the real handlers, Loop the lines of `chat_loop` and its receiver
--   (lmp.c) and of `chat_loop_user` and its receiver (group_user_comms.c), Start the command
--   line (main.c), the user (user_manager.c, uid.c), the nickname (gclient.c) and the start of
--   the chat loops, Console the loop of gserver.c. Link is two programs on one connection as a
--   step relation, where a step is a line or a frame of one side; Heard, Group, Handshake and
--   Delivery are proofs.
-- - Examples: concrete runs.
--
-- Conventions. A C string is the list of its bytes before the NUL; a buffer or an array is the
-- list of all its elements. `none` is an access outside an array. What the operating system and
-- the C library decide is a parameter: `read` and `send` with what POSIX says of them
-- (Lmp.Socket.IsStream, Lmp.RoundTrip.IsWire; that no send is cut short is the hypothesis
-- IsWhole), the word file and `rand` (Hangman.Words.Draw), whether `malloc` and `fopen` succeed
-- and the layout of a Group in memory (Server.Handler.Frames.Env), HOME, which commands
-- system(3) runs and which files open for writing (Process.Os), and the answers of poll and
-- accept (Net.Calls). In Directory, Chat, Stickers and Program a result is `done`, the exit of
-- the process, a fault (a write behind an array, a null pointer that is read) or a run that
-- never ends. Text that the server prints on its own console is left out, but a string that it
-- prints or compares is read up to a NUL: a member whose array has none is an access outside it
-- (Server.Handler.Strings).
--
-- Fuel. `read_all` has a loop that needs it. One unit is spent for each `read`; a read takes at
-- least one byte, meets the end of the stream, or is interrupted, so a fuel above the bytes that
-- are wanted and the interrupts still to come is enough. It is a hypothesis of the theorems that
-- need it, and the result `blocked` of an exhausted fuel is then excluded. The round of
-- `process_connections` spends one unit for each turn, in which it goes on by one descriptor or
-- removes one, so more units than descriptors are enough. The loops of `listen_for_connection`
-- run on the list of answers that poll and accept give; with none left they wait. The loop that
-- appends the last line of a file of stickers spends one unit for each turn; a line that is not
-- empty fills the array of 2048 bytes before 2049 units are spent, and with an empty line no
-- turn changes anything.
--
-- Interleavings. The chat loop and the receiver are two threads with one LMPContext. In
-- Program.Link a line that is typed and a frame that is received are handled each as a whole,
-- and these happen in any order; what two threads make of one FILE or of one field at the same
-- instant is left out.
--
-- Not modelled: `close_all_socks`, which stands behind an endless loop, and
-- `connection_handler`, which nothing calls; the creation, cancelling and joining of threads, in
-- the chat loops and in gserver.c; the terminal mode of sticker_commands.c. In Program the
-- fields of LMPContext that `chat_loop_user` leaves unset are what the memory holds, an argument
-- of the model. The theorem on the loop of the server is for rounds in which the connected
-- clients are busy or one client joins alone; other orders are events of Server.Roster,
-- Server.Order and Server.Newcomer.
pub mod Base
pub mod Hangman
pub mod Lmp
pub mod Server
pub mod Client
pub mod Session
pub mod Process
pub mod Directory
pub mod Uid
pub mod Chat
pub mod Net
pub mod Stickers
pub mod Program
pub mod Examples
