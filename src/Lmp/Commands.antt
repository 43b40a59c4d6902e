-- ===== src/Lmp/Commands.antt =====
-- The commands of the program: the codes of commands_registry.h, `init_commands`
-- (commands_registry.c) and the registrations that it makes (base_commands.c, meow_commands.c,
-- sticker_commands.c, group_commands.c). The handlers are arguments.
use socket_speak.Base.{
  ℕ, ◌≡◌, refl, List, [], Option, none, some, codes, arith, length, str_eq, ◌==◌, if◌then◌else◌,
}
use socket_speak.Lmp.Registry.{
  find_name, call_send, command_error, command_unrecognized, SendHandler, RecvHandler, CommandEntry,
  is_taken, register_command, find_code, dispatch_recv,
}
use socket_speak.Lmp.Code

-- The handlers that the modules register.
pub record Handlers (C : Type 0) : Type 0 where
  pub msg_send : SendHandler C
  pub nick_send : SendHandler C
  pub meow_send : SendHandler C
  pub sticker_send : SendHandler C
  pub grp_obj_send : SendHandler C
  pub grp_info_send : SendHandler C
  pub user_grp_load_msg_send : SendHandler C
  pub user_grp_hangman_send : SendHandler C
  pub msg_recv : RecvHandler C
  pub nick_recv : RecvHandler C
  pub ack_recv : RecvHandler C
  pub error_recv : RecvHandler C
  pub uid_recv : RecvHandler C
  pub sticker_recv : RecvHandler C
  pub grp_obj_recv : RecvHandler C
  pub user_grp_load_msg_recv : RecvHandler C
  pub user_grp_loading_msg_recv : RecvHandler C
  pub user_grp_hangman_recv : RecvHandler C

module _ {C : Type 0} (h : Handlers C) where
  unfoldable pub base_commands_init : List (CommandEntry C) → List (CommandEntry C)
  base_commands_init t0 =
      let t1 =
        register_command Code.msg (some (codes "msg")) (some h.msg_send) (some h.msg_recv) t0 in
      let t2 =
        register_command Code.nick (some (codes "nick")) (some h.nick_send) (some h.nick_recv) t1 in
      let t3 = register_command Code.ack (some (codes "ack")) none (some h.ack_recv) t2 in
      let t4 = register_command Code.error (some (codes "error")) none (some h.error_recv) t3 in
      register_command Code.uid (some (codes "uid")) none (some h.uid_recv) t4

  unfoldable pub meow_commands_init : List (CommandEntry C) → List (CommandEntry C)
  meow_commands_init = register_command Code.meow (some (codes "meow")) (some h.meow_send) none

  unfoldable pub sticker_commands_init : List (CommandEntry C) → List (CommandEntry C)
  sticker_commands_init =
      register_command Code.stickers (some (codes "sticker")) (some h.sticker_send)
        (some h.sticker_recv)

  unfoldable pub group_commands_init : List (CommandEntry C) → List (CommandEntry C)
  group_commands_init t0 =
      let t1 =
        register_command Code.grp_obj (some (codes "grpobj")) (some h.grp_obj_send)
          (some h.grp_obj_recv) t0 in
      let t2 = register_command Code.grp_info (some (codes "gi")) (some h.grp_info_send) none t1 in
      let t3 = register_command Code.grp_init_member (some (codes "initmember")) none none t2 in
      let t4 =
        register_command Code.grp_load_msg (some (codes "load")) (some h.user_grp_load_msg_send)
          (some h.user_grp_load_msg_recv) t3 in
      let t5 =
        register_command Code.grp_loading_msg (some (codes "grploadingmsg")) none
          (some h.user_grp_loading_msg_recv) t4 in
      register_command Code.grp_hangman (some (codes "hangman")) (some h.user_grp_hangman_send)
        (some h.user_grp_hangman_recv) t5

  unfoldable pub init_commands : List (CommandEntry C) → List (CommandEntry C)
  unfolding base_commands_init meow_commands_init sticker_commands_init group_commands_init
  init_commands table =
      group_commands_init (sticker_commands_init (meow_commands_init (base_commands_init table)))

  -- The receiving side as a table by code: the handler, if one is registered.
  pub recv_handler : ℕ → Option (Option (RecvHandler C))
  recv_handler code =
      if code == Code.msg
      then some (some h.msg_recv)
      else if code == Code.nick
      then some (some h.nick_recv)
      else if code == Code.ack
      then some (some h.ack_recv)
      else if code == Code.error
      then some (some h.error_recv)
      else if code == Code.uid
      then some (some h.uid_recv)
      else if code == Code.meow
      then some none
      else if code == Code.stickers
      then some (some h.sticker_recv)
      else if code == Code.grp_obj
      then some (some h.grp_obj_recv)
      else if code == Code.grp_info
      then some none
      else if code == Code.grp_init_member
      then some none
      else if code == Code.grp_load_msg
      then some (some h.user_grp_load_msg_recv)
      else if code == Code.grp_loading_msg
      then some (some h.user_grp_loading_msg_recv)
      else if code == Code.grp_hangman
      then some (some h.user_grp_hangman_recv)
      else none

  -- Run on an empty table, `init_commands` has every registration accepted: thirteen entries.
  pub init_commands-length : length (init_commands []) ≡ 13
  unfolding init_commands register_command is_taken str_eq
  init_commands-length = refl

  -- With the commands that init_commands registers, a received message goes to the handler that
  -- its code names; a code without a receiving handler is an error, and an unknown code is
  -- unrecognized.
  pub dispatch_recv-init_commands :
      (code : ℕ) (buf : List ℕ) (len : ℕ) (ctx : C)
      → dispatch_recv (init_commands []) code buf len ctx ≡ elim (recv_handler code) [
        | none ↦ (command_unrecognized, ctx)
        | some none ↦ (command_error, ctx)
        | some (some handler) ↦ handler code buf len ctx
      ]
  unfolding init_commands register_command is_taken str_eq dispatch_recv find_code recv_handler
  dispatch_recv-init_commands code buf len ctx = ground arith

  -- The handler of a message.
  pub dispatch_recv-msg :
      (buf : List ℕ) (len : ℕ) (ctx : C)
      → dispatch_recv (init_commands []) Code.msg buf len ctx ≡ h.msg_recv Code.msg buf len ctx
  unfolding init_commands register_command is_taken str_eq dispatch_recv find_code
  dispatch_recv-msg buf len ctx = refl

  -- The handler of a uid.
  pub dispatch_recv-uid :
      (buf : List ℕ) (len : ℕ) (ctx : C)
      → dispatch_recv (init_commands []) Code.uid buf len ctx ≡ h.uid_recv Code.uid buf len ctx
  unfolding init_commands register_command is_taken str_eq dispatch_recv find_code
  dispatch_recv-uid buf len ctx = refl

  -- The command `msg`.
  pub call_send-msg :
      (args : List ℕ) (ctx : C)
      → call_send (find_name (init_commands []) (codes "msg")) args ctx
        ≡ h.msg_send Code.msg args ctx
  unfolding init_commands register_command is_taken str_eq find_name call_send
  call_send-msg args ctx = refl
