-- ===== src/Hangman/Screen.antt =====
-- The text of the replies of `update_hangman` (hangman.c).
use socket_speak.Base.{ℕ, zero, suc, ◌-◌, List, [], ◌∷◌, ◌++◌, codes, decimal}
use socket_speak.Hangman.Fsm.{
  Fsm, Verdict, won, lost, invalid, repeated, correct, incorrect, max_attempts,
}

-- hangman_stages
unfoldable pub stage : ℕ → List ℕ
stage zero = codes "  +---+\n  |   |\n      |\n      |\n      |\n      |\n========="
stage (suc zero) = codes "  +---+\n  |   |\n  O   |\n      |\n      |\n      |\n========="
stage (suc (suc zero)) = codes "  +---+\n  |   |\n  O   |\n  |   |\n      |\n      |\n========="
stage (suc (suc (suc zero))) =
    codes "  +---+\n  |   |\n  O   |\n /|   |\n      |\n      |\n========="
stage (suc (suc (suc (suc zero)))) =
    codes "  +---+\n  |   |\n  O   |\n /|\\  |\n      |\n      |\n========="
stage _ = codes "  +---+\n  |   |\n  O   |\n /|\\  |\n / \\  |\n      |\n========="

-- masked_word: the revealed word with a blank between two letters.
unfoldable pub masked_word : List ℕ → List ℕ
masked_word [] = []
masked_word (r ∷ []) = r ∷ []
masked_word (r ∷ s ∷ rs) = r ∷ b' ' ∷ masked_word (s ∷ rs)

unfoldable pub wrong_guesses : Fsm → List ℕ
wrong_guesses f = elim f.guessed_letters [ [] ↦ codes "-" | g ∷ gs ↦ g ∷ gs ]

-- `-` stops at 0, and attempts_left is never negative, so the two clamps of the source never act.
unfoldable pub wrong_stage : Fsm → ℕ
wrong_stage f = max_attempts - f.attempts_left

-- The last four lines, which every reply has.
unfoldable pub board : Fsm → ℕ → List ℕ
board f drawn =
    stage drawn
    ++ (codes "\nWord: "
        ++ (masked_word f.revealed_word
            ++ (codes "\nWrong guesses: "
                ++ (wrong_guesses f ++ (codes "\nAttempts left: " ++ decimal f.attempts_left)))))

unfoldable pub headline : Verdict → Fsm → ℕ → List ℕ
headline won f c = codes "Correct! You guessed the word: " ++ (f.hangman_word ++ codes "\n")
headline lost f c = codes "Incorrect. Game over! The word was: " ++ (f.hangman_word ++ codes "\n")
headline invalid f c = codes "Invalid guess. Please enter a letter.\n"
headline repeated f c = codes "Already guessed '" ++ (c ∷ codes "'.\n")
headline correct f c = codes "Correct guess: '" ++ (c ∷ codes "'.\n")
headline incorrect f c = codes "Incorrect guess: '" ++ (c ∷ codes "'.\n")

unfoldable pub drawn_stage : Verdict → Fsm → ℕ
drawn_stage lost f = max_attempts
drawn_stage _ f = wrong_stage f

-- The sprintf of each branch.
unfoldable pub response : Verdict → Fsm → ℕ → List ℕ
response v f c = codes "[Hangman System] " ++ (headline v f c ++ board f (drawn_stage v f))
