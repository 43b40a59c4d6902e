-- ===== src/Hangman/Words.antt =====
-- The choice of the word: `set_random_word` (hangman.c), a reservoir of size one over the lines of
-- the word file. The file and the answers of `rand` are arguments.
use socket_speak.Base.{
  ℕ, ◌+◌, ◌%◌, List, [], ◌∷◌, Option, none, some, length, leb, ◌==◌, if◌then◌else◌, Bool, ◌&&◌,
  cstr, strip_newline, fgets_lines,
}
use socket_speak.Hangman.Fsm.{Fsm, max_word_length}

-- What the run finds: the bytes of the file, if it opens, and what `rand` answers call by call.
pub record Draw : Type 0 where
  pub file : Option (List ℕ)
  pub rand : ℕ → ℕ

-- A line without its newline, as `strlen` and `strncpy` see it.
abbrev pub word_of_line : List ℕ → List ℕ
word_of_line line = strip_newline (cstr line)

unfoldable pub is_eligible : List ℕ → Bool
is_eligible word = leb (length word) max_word_length

-- The loop over the lines, with `count` of them eligible so far.
unfoldable pub choose_word : (ℕ → ℕ) → ℕ → List (List ℕ) → List ℕ → List ℕ
choose_word rand count [] chosen = chosen
choose_word rand count (line ∷ lines) chosen =
    let word = word_of_line line in
    choose_word rand (if is_eligible word then count + 1 else count) lines
      (if is_eligible word && rand count % (count + 1) == 0 then word else chosen)

unfoldable pub set_random_word : Draw → Fsm → Fsm
unfolding choose_word
set_random_word d f = elim d.file [
  | none ↦ f
  | some bytes ↦ record f {
    hangman_word = choose_word d.rand 0 (fgets_lines 1024 bytes) f.hangman_word;
  }
]
