-- ===== src/Stickers/Commands.antt =====
-- The command `sticker` and its receiving handler (sticker_commands.c). `input` is what is typed.
use socket_speak.Base.{
  ℕ, List, [], ◌∷◌, ◌++◌, Bool, true, none, some, ltb, if◌then◌else◌, length, codes, cstr, str_eq,
}
use socket_speak.Process.{Os, Result, done, fault, ◌>>=◌, ◌>>◌, fits}
use socket_speak.Lmp.Registry.{
  CommandResult, command_success, command_error, skip_blanks, split_word,
}
use socket_speak.Chat.History.{Chat, print, lmp_history_append}
use socket_speak.Chat.Handlers.{after_send}
use socket_speak.Stickers.Table.{
  StickerEntry, max_stickers, max_sticker_len, load_stickers, save_sticker, get_sticker,
}
use socket_speak.Stickers.Editor.{read_text}

-- The globals of sticker_commands.c, and the chat.
pub record Stickers : Type 0 where
  pub sticker_array : List StickerEntry
  pub history_loaded : Bool
  pub input : List ℕ
  pub chat : Chat

abbrev pub note : List ℕ → Stickers → Stickers
note text s = record s { chat = print text s.chat }

unfoldable pub store : Os → List ℕ → List ℕ → Stickers → Result Stickers
store os name text s = do
  fits max_sticker_len text
  fits 32 name
  let e : StickerEntry = record { name = name; sticker = text }
  if ltb (length s.sticker_array) max_stickers
      then (save_sticker os e s.chat.process >>= λ p. done (
          note (codes "Sticker " ++ (name ++ codes " created!\n")) (record s {
            sticker_array = s.sticker_array ++ (e ∷ []);
            chat = record s.chat { process = p };
          })))
      else fault

unfoldable pub create_sticker : Os → List ℕ → Stickers → Result Stickers
unfolding store
create_sticker os name s = elim (get_sticker s.sticker_array name) [
  | some _ ↦ done (note (codes "There is already a sticker with name " ++ (name ++ codes "!\n")) s)
  | none ↦
      let (text, rest) = read_text [] s.input in
      store os name (cstr text) (record s { input = rest })
]

unfoldable pub send_text : Os → ℕ → List ℕ → Stickers → Result (CommandResult × Stickers)
send_text os code sticker s =
    let shown = note (sticker ++ codes "\n") s in
    let (r, c) = after_send os code sticker (λ c. c) shown.chat in
    elim r [
      | command_success ↦
          fits max_sticker_len (codes "\n" ++ sticker)
          >> done (
            command_success,
            record shown { chat = lmp_history_append os c.my_nick (codes "\n" ++ sticker) c },
          )
      | other ↦ done (other, record shown { chat = c })
    ]

list_names : List StickerEntry → Stickers → Stickers
list_names [] s = s
list_names (e ∷ es) s = list_names es (note (e.name ++ codes "\n") s)

-- The four commands that are known; `words` is what stands behind the command.
unfoldable pub named_command :
    Os → ℕ → List ℕ → List ℕ → Stickers → Result (CommandResult × Stickers)
unfolding send_text create_sticker
named_command os code command [] s = done (command_error, note (codes "No command found!\n") s)
named_command os code command (b ∷ name) s =
    if str_eq command (codes "create")
    then create_sticker os (b ∷ name) s >>= (λ t. done (command_success, t))
    else elim (get_sticker s.sticker_array (b ∷ name)) [
      | some sticker ↦
          if str_eq command (codes "send")
          then send_text os code sticker s
          else done (command_success, note (sticker ++ codes "\n") s)
      | none ↦
          if str_eq command (codes "send")
          then done (command_success, note (codes "Sticker not found!\n") s)
          else fault
    ]

is_named : List ℕ → Bool
is_named command =
    if str_eq command (codes "create")
    then true
    else if str_eq command (codes "send")
    then true
    else str_eq command (codes "preview")

unfoldable pub run_command : Os → ℕ → List ℕ × List ℕ → Stickers → Result (CommandResult × Stickers)
unfolding named_command is_named list_names
run_command os code ([], rest) s = done (command_error, note (codes "No command found!\n") s)
run_command os code (b ∷ word, rest) s =
    if is_named (b ∷ word)
    then named_command os code (b ∷ word) (split_word (skip_blanks rest)).0 s
    else done (
      command_success,
      if str_eq (b ∷ word) (codes "list")
          then list_names s.sticker_array (note (codes "Stickers saved:\n") s)
          else note (codes "Sticker command " ++ ((b ∷ word) ++ codes " not found!")) s,
    )

-- The stickers are loaded once.
unfoldable pub load_once : Os → Stickers → Result Stickers
load_once os s =
    if s.history_loaded
    then done s
    else load_stickers os s.sticker_array s.chat.process >>= λ (es, p). done (record s {
      sticker_array = es;
      history_loaded = true;
      chat = record s.chat { process = p };
    })

unfoldable pub sticker_send : Os → ℕ → List ℕ → Stickers → Result (CommandResult × Stickers)
unfolding load_once run_command
sticker_send os code args s = do
  t ← load_once os s
  run_command os code (split_word (skip_blanks args)) t

abbrev sent_line : List ℕ
sent_line = codes "Sent a sticker\n"

unfoldable pub sticker_recv : Os → List ℕ → Chat → Result (CommandResult × Chat)
sticker_recv os buf c = do
  fits max_sticker_len (sent_line ++ buf)
  done (
    command_success,
    lmp_history_append os c.peer_nick (sent_line ++ buf)
        (print (b'[' ∷ (c.peer_nick ++ (codes "]: " ++ (sent_line ++ (buf ++ codes "\n"))))) c),
  )
