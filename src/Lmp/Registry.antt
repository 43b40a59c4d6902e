-- ===== src/Lmp/Registry.antt =====
-- The command registry of lmp.c: `register_command`, `dispatch_send`, `dispatch_recv`.
-- `C` is the context that the handlers read and change.
use socket_speak.Base.{
  ℕ, List, [], ◌∷◌, ◌++◌, Bool, false, ◌||◌, Option, none, some, leb, ◌==◌, if◌then◌else◌, length,
  str_eq,
}

-- CommandResult
pub data CommandResult : Type 0 where
  command_success command_error command_unrecognized : CommandResult

abbrev pub max_commands : ℕ
max_commands = 32

abbrev pub max_name_len : ℕ
max_name_len = 32

-- SendHandler and RecvHandler: the code, then the arguments or the message with its length.
abbrev pub SendHandler : Type 0 → Type 0
SendHandler C = ℕ → List ℕ → C → CommandResult × C

abbrev pub RecvHandler : Type 0 → Type 0
RecvHandler C = ℕ → List ℕ → ℕ → C → CommandResult × C

-- CommandEntry; `none` is NULL.
pub record CommandEntry (C : Type 0) : Type 0 where
  pub code : ℕ
  pub name : List ℕ
  pub send : Option (SendHandler C)
  pub recv : Option (RecvHandler C)

-- strtok(buf, " "), then strtok(NULL, ""): the first word, and what stands behind the blank that
-- ends it.
unfoldable pub skip_blanks : List ℕ → List ℕ
skip_blanks [] = []
skip_blanks (b ∷ bs) = let rest = skip_blanks bs in if b == b' ' then rest else b ∷ bs

unfoldable pub split_word : List ℕ → List ℕ × List ℕ
split_word [] = ([], [])
split_word (b ∷ bs) =
    let (word, rest) = split_word bs in if b == b' ' then ([], bs) else (b ∷ word, rest)

module _ {C : Type 0} where
  -- The loop over the table: the code or the name is taken.
  unfoldable pub is_taken : List (CommandEntry C) → ℕ → List ℕ → Bool
  is_taken [] code name = false
  is_taken (e ∷ es) code name = e.code == code || str_eq e.name name || is_taken es code name

  -- The table is `command_table` up to `command_count`.
  unfoldable pub register_command :
      ℕ
      → Option (List ℕ)
      → Option (SendHandler C)
      → Option (RecvHandler C)
      → List (CommandEntry C)
      → List (CommandEntry C)
  register_command code none send recv table = table
  register_command code (some name) send recv table =
      if leb max_commands (length table)
      then table
      else if leb max_name_len (length name)
      then table
      else if is_taken table code name
      then table
      else table ++ (record { code = code; name = name; send = send; recv = recv } ∷ [])

  -- The first entry with the name.
  unfoldable pub find_name : List (CommandEntry C) → List ℕ → Option (CommandEntry C)
  find_name [] name = none
  find_name (e ∷ es) name = if str_eq e.name name then some e else find_name es name

  unfoldable pub find_code : List (CommandEntry C) → ℕ → Option (CommandEntry C)
  find_code [] code = none
  find_code (e ∷ es) code = if e.code == code then some e else find_code es code

  unfoldable pub call_send : Option (CommandEntry C) → List ℕ → C → CommandResult × C
  call_send none args ctx = (command_unrecognized, ctx)
  call_send (some e) args ctx = elim e.send [
    | none ↦ (command_error, ctx)
    | some handler ↦ handler e.code args ctx
  ]

  unfoldable pub send_words : List (CommandEntry C) → List ℕ × List ℕ → C → CommandResult × C
  unfolding call_send
  send_words table ([], args) ctx = (command_unrecognized, ctx)
  send_words table (b ∷ word, args) ctx = call_send (find_name table (b ∷ word)) args ctx

  unfoldable pub dispatch_send : List (CommandEntry C) → List ℕ → C → CommandResult × C
  unfolding send_words
  dispatch_send table line ctx =
      if leb 256 (length line)
      then (command_error, ctx)
      else send_words table (split_word (skip_blanks line)) ctx

  unfoldable pub call_recv : Option (CommandEntry C) → ℕ → List ℕ → ℕ → C → CommandResult × C
  call_recv none code buf len ctx = (command_unrecognized, ctx)
  call_recv (some e) code buf len ctx = elim e.recv [
    | none ↦ (command_error, ctx)
    | some handler ↦ handler code buf len ctx
  ]

  unfoldable pub dispatch_recv : List (CommandEntry C) → ℕ → List ℕ → ℕ → C → CommandResult × C
  unfolding call_recv
  dispatch_recv table code buf len ctx = call_recv (find_code table code) code buf len ctx
