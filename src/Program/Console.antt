-- ===== src/Program/Console.antt =====
-- The console of the group server: the loop of gserver.c over the lines that are typed.
use socket_speak.Base.{
  ℕ, List, [], ◌∷◌, ◌++◌, Bool, true, false, if◌then◌else◌, codes, cstr, str_eq, fgets_lines,
}
use socket_speak.Stickers.Table.{cut_line}

-- The answer to one line, and whether the server closes.
unfoldable pub console_command : List ℕ → List (List ℕ) × Bool
console_command [] = ([], false)
console_command (b ∷ bs) =
    if str_eq (b ∷ bs) (codes "/list")
    then (codes "Not implemented yet.\n" ∷ [], false)
    else if str_eq (b ∷ bs) (codes "/close")
    then (codes "Server closed.\n" ∷ [], true)
    else (
      (codes "Unknown command: " ++ ((b ∷ bs) ++ codes "\n"))
          ∷ codes "Commands: /list, /close\n"
          ∷ [],
      false,
    )

-- What is printed until the server closes, by the command or at the end of the input.
unfoldable pub console_lines : List (List ℕ) → List (List ℕ)
unfolding console_command cut_line
console_lines [] = []
console_lines (line ∷ lines) =
    let (texts, closes) = console_command (cut_line (cstr line)) in
    let rest = console_lines lines in if closes then texts else texts ++ rest

unfoldable pub console : List ℕ → List (List ℕ)
unfolding console_lines
console typed = (codes "Commands: /list, /close\n") ∷ console_lines (fgets_lines 128 typed)
