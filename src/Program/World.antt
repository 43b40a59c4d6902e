-- ===== src/Program/World.antt =====
-- The globals of a user's program, and the handlers that `init_commands` registers, on them. A
-- handler may end the process or go wrong, so that the context of the registry is a Result.
use socket_speak.Base.{ℕ, List, [], ◌∷◌, ◌++◌, codes, cstr}
use socket_speak.Process.{Os, Result, done, exited, fault, diverged, ◌>>=◌}
use socket_speak.Lmp.Registry.{CommandResult, command_success, command_error, CommandEntry}
use socket_speak.Lmp.Commands.{Handlers, init_commands}
use socket_speak.Server.State.{Group}
use socket_speak.Chat.History.{Chat, print}
use socket_speak.Chat.Handlers.{
  after_send, msg_send, msg_recv, nick_send, nick_recv, ack_recv, error_recv, uid_recv,
}
use socket_speak.Stickers.Commands.{Stickers, sticker_send, sticker_recv}
use socket_speak.Client.Member.{
  Client, grp_obj_recv, grp_info_send, user_grp_load_msg_send, user_grp_load_msg_recv,
  user_grp_loading_msg_recv, user_grp_hangman_send, user_grp_hangman_recv,
}

-- `current_group` is the global that a user's program never sets; `group_of` is the cast of a
-- buffer to a Group and `image` the memory of one.
pub record Setting : Type 0 where
  pub os : Os
  pub group_of : List ℕ → Group
  pub image : List ℕ

pub record World : Type 0 where
  pub stickers : Stickers
  pub client : Client

abbrev pub chat_of : World → Chat
chat_of w = w.stickers.chat

abbrev pub with_chat : World → Chat → World
with_chat w c = record w { stickers = record w.stickers { chat = c } }

-- A handler's result and the world after it.
abbrev pub settled : Result (CommandResult × World) → CommandResult × Result World
settled (done (r, w)) = (r, done w)
settled exited = (command_error, exited)
settled fault = (command_error, fault)
settled diverged = (command_error, diverged)

-- Nothing runs after the end.
abbrev pub running :
    (World → Result (CommandResult × World)) → Result World → CommandResult × Result World
running f (done w) = settled (f w)
running f exited = (command_error, exited)
running f fault = (command_error, fault)
running f diverged = (command_error, diverged)

abbrev pub on_chat : (Chat → Result (CommandResult × Chat)) → World → Result (CommandResult × World)
on_chat f w = f (chat_of w) >>= λ (r, c). done (r, with_chat w c)

abbrev print_all : List (List ℕ) → Chat → Chat
print_all [] c = c
print_all (text ∷ texts) c = print_all texts (print text c)

-- What a handler of a group prints and sends goes the same way as all else.
abbrev pub on_client : (Client → CommandResult × Client) → World → Result (CommandResult × World)
on_client f w =
    let (r, c) = f (record w.client { prints = []; sends = [] }) in
    let d = print_all c.prints (chat_of w) in
    done (
      r,
      record (with_chat w (record d { sends = d.sends ++ c.sends })) {
        client = record c { prints = []; sends = [] };
      },
    )

unfoldable pub meow_send : List ℕ → Chat → CommandResult × Chat
meow_send args c = (command_success, print (codes "meow " ++ (args ++ codes "\n")) c)

unfoldable pub grp_obj_send : Setting → ℕ → Chat → CommandResult × Chat
unfolding after_send
grp_obj_send g code c = after_send g.os code g.image (λ d. d) c

module _ (g : Setting) where
  abbrev os : Os
  os = g.os

  unfoldable pub handlers : Handlers (Result World)
  handlers = record {
    msg_send = λ code args. running (on_chat (λ c. done (msg_send os code args c)));
    nick_send = λ code args. running (on_chat (nick_send os code args));
    meow_send = λ code args. running (on_chat (λ c. done (meow_send args c)));
    sticker_send = λ code args. running (λ w.
        sticker_send os code args w.stickers >>= λ (r, s). done (r, record w { stickers = s }));
    grp_obj_send = λ code args. running (on_chat (λ c. done (grp_obj_send g code c)));
    grp_info_send = λ code args. running (on_client (grp_info_send code args));
    user_grp_load_msg_send =
        λ code args. running (on_client (user_grp_load_msg_send os.sends code args));
    user_grp_hangman_send =
        λ code args. running (on_client (user_grp_hangman_send os.sends code args));
    msg_recv = λ code buf len. running (on_chat (λ c. done (msg_recv os (cstr buf) c)));
    nick_recv = λ code buf len. running (on_chat (nick_recv os (cstr buf)));
    ack_recv = λ code buf len. running (on_chat (λ c. done (ack_recv (cstr buf) c)));
    error_recv = λ code buf len. running (on_chat (λ c. done (error_recv (cstr buf) c)));
    uid_recv = λ code buf len. running (on_chat (uid_recv os buf len));
    sticker_recv = λ code buf len. running (on_chat (sticker_recv os (cstr buf)));
    grp_obj_recv = λ code buf len. running (on_client (grp_obj_recv g.group_of code buf len));
    user_grp_load_msg_recv =
        λ code buf len. running (on_client (user_grp_load_msg_recv code buf len));
    user_grp_loading_msg_recv =
        λ code buf len. running (on_client (user_grp_loading_msg_recv code buf len));
    user_grp_hangman_recv =
        λ code buf len. running (on_client (user_grp_hangman_recv code buf len));
  }

  -- The command table of a program.
  unfoldable pub command_table : List (CommandEntry (Result World))
  command_table = init_commands handlers []
