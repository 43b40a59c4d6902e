-- ===== src/Hangman/Fsm.antt =====
-- The game record of hangman.h, and the outcomes that the replies of hangman.c tell apart.
use socket_speak.Base.{ℕ, List, Bool}

-- STATE_HANGMAN
pub data State : Type 0 where
  initial playing update : State

-- HANGMAN_FSM. The three `char` arrays are the strings that they hold.
pub record Fsm : Type 0 where
  pub state : State
  pub hangman_word : List ℕ
  pub guessed_letters : List ℕ
  pub attempts_left : ℕ
  pub revealed_word : List ℕ
  pub hangman_round_initialized : Bool

abbrev pub max_word_length : ℕ
max_word_length = 7

abbrev pub max_attempts : ℕ
max_attempts = 5

-- HANGMAN_EMPTY_CHARACTER
abbrev pub empty_character : ℕ
empty_character = b'_'

-- Which of the six replies at the end of `update_hangman` is written.
pub data Verdict : Type 0 where
  won lost invalid repeated correct incorrect : Verdict
