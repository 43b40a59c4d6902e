-- ===== src/Hangman/Guess.antt =====
-- The guess logic of `update_hangman` (hangman.c), without the text of its replies.
use socket_speak.Base.{
  ℕ, ◌-◌, List, [], ◌∷◌, ◌++◌, Bool, true, false, ◌&&◌, ◌||◌, not, length, replicate, ltb, leb,
  ◌==◌, if◌then◌else◌, is_alpha, contains, str_eq,
}
use socket_speak.Hangman.Fsm.{
  initial, Fsm, Verdict, won, lost, invalid, repeated, correct, incorrect, max_attempts,
  empty_character,
}

-- The first guess of a round blanks the word and resets the counters.
unfoldable pub begin_round : Fsm → Fsm
begin_round f = if f.hangman_round_initialized then f else record f {
  revealed_word = replicate (length f.hangman_word) empty_character;
  guessed_letters = [];
  attempts_left = max_attempts;
  hangman_round_initialized = true;
}

-- The scan for the letter: (found_letter, already_guessed). Past the end of `revealed_word` there
-- is its NUL, which is no letter.
unfoldable pub scan_word : List ℕ → List ℕ → ℕ → Bool × Bool
scan_word [] rs c = (false, false)
scan_word (w ∷ ws) [] c = (w == c || (scan_word ws [] c).0, false)
scan_word (w ∷ ws) (r ∷ rs) c =
    let (found, already) = scan_word ws rs c in (w == c || found, (w == c && r == c) || already)

-- The loop that uncovers the letter.
unfoldable pub reveal : List ℕ → List ℕ → ℕ → List ℕ
reveal [] rs c = rs
reveal (w ∷ ws) [] c = []
reveal (w ∷ ws) (r ∷ rs) c = (if w == c then c else r) ∷ reveal ws rs c

-- What a guess leaves: the record and the two flags.
pub record Guess : Type 0 where
  pub fsm : Fsm
  pub found_letter : Bool
  pub already_guessed : Bool

-- A letter that is not in the word: refused if it is listed, else listed and paid for.
unfoldable pub record_miss : Fsm → ℕ → Guess
record_miss f c =
    if contains f.guessed_letters c
    then record { fsm = f; found_letter = false; already_guessed = true }
    else record {
      fsm = record f {
        guessed_letters =
            if ltb (length f.guessed_letters) max_attempts
            then f.guessed_letters ++ (c ∷ [])
            else f.guessed_letters;
        attempts_left = if ltb 0 f.attempts_left then f.attempts_left - 1 else f.attempts_left;
      };
      found_letter = false;
      already_guessed = false;
    }

-- `c` is the normalized input.
unfoldable pub apply_guess : Fsm → ℕ → Guess
apply_guess f c =
    let (found, already) = scan_word f.hangman_word f.revealed_word c in
    if not (is_alpha c)
    then record { fsm = f; found_letter = false; already_guessed = false }
    else if not found
    then record_miss f c
    else if already
    then record { fsm = f; found_letter = true; already_guessed = true }
    else record {
      fsm = record f { revealed_word = reveal f.hangman_word f.revealed_word c };
      found_letter = true;
      already_guessed = false;
    }

-- The tests that choose the reply, in their order.
unfoldable pub judge : Guess → ℕ → Verdict
judge g c =
    if str_eq g.fsm.revealed_word g.fsm.hangman_word
    then won
    else if leb g.fsm.attempts_left 0
    then lost
    else if not (is_alpha c)
    then invalid
    else if g.already_guessed
    then repeated
    else if g.found_letter
    then correct
    else incorrect

-- A round that is won or lost returns to `initial`.
unfoldable pub settle : Verdict → Fsm → Fsm
settle won f = record f { state = initial; hangman_round_initialized = false }
settle lost f = record f { state = initial; hangman_round_initialized = false }
settle _ f = f
