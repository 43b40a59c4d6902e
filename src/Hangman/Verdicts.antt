-- ===== src/Hangman/Verdicts.antt =====
-- What `update_hangman` answers, told by the rules, and where it leaves the round.
use socket_speak.Base.{
  ℕ, ◌≡◌, refl, ◌≢◌, inl, inr, List, [], ◌∷◌, Bool, true, ◌&&◌, not, arith, All, leb, if◌then◌else◌,
  contains, is_alpha, to_lower, str_eq, Bool-cases, is_lower,
}
use socket_speak.Hangman.Fsm.{
  Fsm, Verdict, won, lost, invalid, repeated, correct, incorrect, empty_character,
}
use socket_speak.Hangman.Guess.{judge}
use socket_speak.Hangman.Process.{play_guess, guess_verdict}
use socket_speak.Hangman.Rules.{mask}
use socket_speak.Hangman.Refines.{
  guessed, Ready, play_guess-Follows, play_guess-word, play_guess-flags,
}

-- The word holds lower-case letters only, as those of the word file do.
abbrev pub IsWord : List ℕ → Type 0
IsWord = All (λ c. is_lower c ≡ true)

-- Every letter of the word has been guessed.
unfoldable pub solved : List ℕ → List ℕ → Bool
solved [] letters = true
solved (x ∷ w) letters = contains letters x && solved w letters

lower_ne_empty : (c : ℕ) → is_lower c ≡ true → c ≢ empty_character
unfolding is_lower
lower_ne_empty c h = ground arith

str_eq-mask : (w letters : List ℕ) → IsWord w → str_eq (mask w letters) w ≡ solved w letters
unfolding str_eq solved
str_eq-mask [] letters h = refl
str_eq-mask (x ∷ w) letters h = ground (arith, str_eq-mask w letters h.1, lower_ne_empty x h.0)

-- The rules' verdict on an input: `letters` are those guessed before it, `left` what is left after.
unfoldable pub rule_verdict : List ℕ → List ℕ → ℕ → ℕ → Verdict
rule_verdict word letters c left =
    if solved word (guessed letters c)
    then won
    else if leb left 0
    then lost
    else if not (is_alpha c)
    then invalid
    else if contains letters c
    then repeated
    else if contains word c
    then correct
    else incorrect

module _ (letters : List ℕ) (f : Fsm) (input : ℕ) (word : IsWord f.hangman_word)
    (ready : Ready letters f) where
  -- The comparison of the revealed word with the word.
  revealed_solved :
      str_eq (play_guess f input).fsm.revealed_word (play_guess f input).fsm.hangman_word
      ≡ solved f.hangman_word (guessed letters (to_lower input))
  revealed_solved =
      rw ((play_guess-Follows letters f input ready).shown, play_guess-word f input)
        (str_eq-mask f.hangman_word (guessed letters (to_lower input)) word)

  -- If the word is lower-case and the record agrees with the rules, the reply that update_hangman
  -- chooses is the one that the rules call for: won, lost, invalid, repeated, correct or
  -- incorrect, from the letters guessed and the attempts left.
  pub guess_verdict-rules :
      guess_verdict f input
      ≡ rule_verdict f.hangman_word letters (to_lower input) (play_guess f input).fsm.attempts_left
  unfolding guess_verdict judge rule_verdict
  guess_verdict-rules = elim (Bool-cases (is_alpha (to_lower input))) [
    | inl a ↦ ground (arith, revealed_solved, play_guess-flags letters f input ready a)
    | inr other ↦ rw (revealed_solved, other)
  ]
