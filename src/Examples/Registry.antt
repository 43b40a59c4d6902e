-- ===== src/Examples/Registry.antt =====
-- The command table (lmp.c) with one command.
use socket_speak.Base.{
  ℕ, ◌≡◌, refl, List, [], ◌∷◌, none, some, arith, codes, length, str_eq, if◌then◌else◌, ltb,
  replicate,
}
use socket_speak.Lmp.Registry.{
  dispatch_recv, command_unrecognized, command_success, command_error, CommandEntry, SendHandler,
  RecvHandler, is_taken, register_command, find_name, call_send,
}
use socket_speak.Lmp.Commands.{Handlers, init_commands, recv_handler, dispatch_recv-init_commands}
use socket_speak.Lmp.Dispatch.{IsTable, IsAccepted, register_command-IsTable}
use socket_speak.Lmp.Lines.{user_send, user_send_plain}

-- The context is the list of what the handlers were given.
abbrev Log : Type 0
Log = List (List ℕ)

abbrev log_send : SendHandler Log
log_send code args log = (command_success, args ∷ log)

abbrev log_recv : RecvHandler Log
log_recv code buf len log = (command_success, buf ∷ log)

abbrev msg_entry : CommandEntry Log
msg_entry = record { code = 0; name = codes "msg"; send = some log_send; recv = some log_recv }

abbrev msg_table : List (CommandEntry Log)
msg_table = msg_entry ∷ []

msg_table-IsTable : IsTable msg_table
msg_table-IsTable = record {
  small = omega arith;
  short = (omega arith, tt);
  unambiguous = (tt, tt);
}

register_command-IsTable_example :
    IsTable (register_command 1 (some (codes "nick")) (some log_send) none msg_table)
register_command-IsTable_example =
    register_command-IsTable 1 (some (codes "nick")) (some log_send) none msg_table
      msg_table-IsTable

nick_IsAccepted : IsAccepted msg_table 1 (codes "nick")
unfolding is_taken str_eq
nick_IsAccepted = (omega arith, omega arith, refl)

-- 300 bytes of plain text.
abbrev long_text : List ℕ
long_text = replicate 300 b'a'

user_send_plain_example :
    user_send msg_table long_text []
    ≡ some (
        if ltb (length long_text) 252
        then call_send (find_name msg_table (codes "msg")) long_text []
        else (command_error, []))
user_send_plain_example = user_send_plain msg_table long_text [] (omega arith) (omega arith)

abbrev log_handlers : Handlers Log
log_handlers = record {
  msg_send = log_send;
  nick_send = log_send;
  meow_send = log_send;
  sticker_send = log_send;
  grp_obj_send = log_send;
  grp_info_send = log_send;
  user_grp_load_msg_send = log_send;
  user_grp_hangman_send = log_send;
  msg_recv = log_recv;
  nick_recv = log_recv;
  ack_recv = log_recv;
  error_recv = log_recv;
  uid_recv = log_recv;
  sticker_recv = log_recv;
  grp_obj_recv = log_recv;
  user_grp_load_msg_recv = log_recv;
  user_grp_loading_msg_recv = log_recv;
  user_grp_hangman_recv = log_recv;
}

dispatch_recv-init_commands_example :
    dispatch_recv (init_commands log_handlers []) 0x80 (codes "g") 1 []
    ≡ elim (recv_handler log_handlers 0x80) [
      | none ↦ (command_unrecognized, [])
      | some none ↦ (command_error, [])
      | some (some handler) ↦ handler 0x80 (codes "g") 1 []
    ]
dispatch_recv-init_commands_example = dispatch_recv-init_commands log_handlers 0x80 (codes "g") 1 []
