-- ===== src/Chat/Handlers.antt =====
-- The handlers of base_commands.c, and `lmp_send_uid` (lmp.c).
use socket_speak.Base.{ℕ, ◌++◌, List, [], ◌∷◌, true, leb, if◌then◌else◌, codes, cstr, take}
use socket_speak.Process.{Os, Result, done, ◌>>=◌}
use socket_speak.Lmp.Registry.{CommandResult, command_success, command_error}
use socket_speak.Lmp.Code
use socket_speak.Chat.History.{
  Chat, print, lmp_history_prepare, lmp_history_load, lmp_history_append,
}
use socket_speak.Chat.Nick.{lmp_save_nick, lmp_save_peer_nick, lmp_load_peer_nick}

-- What follows a `lmp_send` that succeeds.
unfoldable pub after_send : Os → ℕ → List ℕ → (Chat → Chat) → Chat → CommandResult × Chat
after_send os type payload next c =
    if os.sends
    then (command_success, next (record c { sends = c.sends ++ ((type, payload) ∷ []) }))
    else (command_error, c)

unfoldable pub msg_send : Os → ℕ → List ℕ → Chat → CommandResult × Chat
unfolding after_send
msg_send os code args c = after_send os code args (λ d. lmp_history_append os d.my_nick args d) c

unfoldable pub msg_recv : Os → List ℕ → Chat → CommandResult × Chat
msg_recv os buf c = (
  command_success,
  lmp_history_append os c.peer_nick buf
      (print (b'[' ∷ (c.peer_nick ++ (codes "]: " ++ (buf ++ codes "\n")))) c),
)

-- In a group the server keeps the nickname.
unfoldable pub nick_send : Os → ℕ → List ℕ → Chat → Result (CommandResult × Chat)
unfolding after_send
nick_send os code args c =
    if c.user_group_mode
    then done (after_send os code args (λ d. d) c)
    else lmp_save_nick os (take 31 args) c.process >>= λ (_, p).
        done (after_send os code args (λ d. d) (record c { my_nick = take 31 args; process = p }))

unfoldable pub nick_recv : Os → List ℕ → Chat → Result (CommandResult × Chat)
unfolding after_send
nick_recv os buf c = do
  (_, p) ← lmp_save_peer_nick os c.peer_uid (take 31 buf) c.process
  let d = record c { peer_nick = take 31 buf; process = p }
  let e = print (codes "*** Peer is now known as: " ++ (take 31 buf ++ codes "\n")) d
  done (after_send os Code.ack (codes "nickname ack") (λ d. d) e)

unfoldable pub ack_recv : List ℕ → Chat → CommandResult × Chat
ack_recv buf c = (command_success, print (codes "[System]: " ++ (buf ++ codes "\n")) c)

unfoldable pub error_recv : List ℕ → Chat → CommandResult × Chat
error_recv buf c = (command_success, print (codes "[error]: " ++ (buf ++ codes "\n")) c)

-- `buf` is the whole buffer, of which `len` bytes are the message.
unfoldable pub uid_recv : Os → List ℕ → ℕ → Chat → Result (CommandResult × Chat)
uid_recv os buf len c = do
  let copy_len = if leb len 8 then len else 8
  d ← lmp_history_prepare os (record c { peer_uid = cstr (take copy_len buf) })
  (nick, p) ← lmp_load_peer_nick os d.peer_uid d.peer_nick d.process
  let e = record d { peer_nick = nick; process = p }
  let f = if e.history_loaded then e else record (lmp_history_load e) { history_loaded = true }
  done (command_success, record f { peer_uid_ready = true })

-- The result of `lmp_send_uid`.
unfoldable pub lmp_send_uid : Os → Chat → CommandResult × Chat
unfolding after_send
lmp_send_uid os c = elim c.my_uid [
  | [] ↦ (command_error, c)
  | u ∷ uid ↦ after_send os Code.uid (u ∷ uid) (λ d. d) c
]
