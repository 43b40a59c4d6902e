-- ===== src/Hangman/Sizes.antt =====
-- The texts of the game fit the buffers of hangman.c: the arrays of the record, `response[512]` of
-- `update_hangman` and `response[1024]` of `process_hangman_state`.
use socket_speak.Base.{
  ℕ, zero, suc, ◌+◌, ◌*◌, ◌≤◌, ◌<◌, ◌≡◌, List, [], ◌∷◌, ◌++◌, arith, length, length-append,
  length-map, decimal, to_lower,
}
use socket_speak.Hangman.Fsm.{Fsm, Verdict, won, lost, max_attempts, max_word_length}
use socket_speak.Hangman.Screen.{
  stage, masked_word, wrong_guesses, board, headline, drawn_stage, response,
}
use socket_speak.Hangman.Process.{play_guess, guess_verdict, update_hangman, bar}
use socket_speak.Hangman.Rules.{Follows}
use socket_speak.Hangman.Refines.{Ready, play_guess-Follows, play_guess-word}
use socket_speak.Hangman.Endgame.{
  HasWord, update_hangman-Follows, update_hangman-eq, update_hangman-word,
}

-- The strings fit the arrays of the record with their NULs, and the counter is in range.
pub record Fits (f : Fsm) : Type 0 where
  pub word_fits : length f.hangman_word ≤ max_word_length
  pub revealed_fits : length f.revealed_word ≤ max_word_length
  pub guessed_fits : length f.guessed_letters ≤ max_attempts
  pub attempts_fit : f.attempts_left ≤ max_attempts

Follows-Fits :
    {letters : List ℕ} (f : Fsm)
    → length f.hangman_word ≤ max_word_length
    → Follows letters f
    → Fits f
Follows-Fits {letters} f h follows = record {
  word_fits = h;
  revealed_fits = rw follows.shown (rw length-map h);
  guessed_fits = omega (arith, follows.paid);
  attempts_fit = omega (arith, follows.paid);
}

length-stage : (n : ℕ) → length (stage n) ≤ 66
unfolding stage
length-stage zero = omega arith
length-stage (suc zero) = omega arith
length-stage (suc (suc zero)) = omega arith
length-stage (suc (suc (suc zero))) = omega arith
length-stage (suc (suc (suc (suc zero)))) = omega arith
length-stage (suc (suc (suc (suc (suc n))))) = omega arith

length-masked_word : (rs : List ℕ) → length (masked_word rs) ≤ 2 * length rs
unfolding masked_word
length-masked_word [] = omega arith
length-masked_word (r ∷ []) = omega arith
length-masked_word (r ∷ s ∷ rs) = omega (arith, length-masked_word (s ∷ rs))

length-decimal : (n : ℕ) → n ≤ 5 → length (decimal n) ≡ 1
unfolding decimal
length-decimal n h = ground arith

length-wrong_guesses : (f : Fsm) → length (wrong_guesses f) ≤ length f.guessed_letters + 1
unfolding wrong_guesses
length-wrong_guesses f = ground arith

length-board : (f : Fsm) (n : ℕ) → Fits f → length (board f n) ≤ 130
unfolding board
length-board f n fits = omega (
  arith,
  length-append {0},
  length-stage n,
  length-masked_word f.revealed_word,
  length-wrong_guesses f,
  length-decimal f.attempts_left,
)

length-headline : (v : Verdict) (f : Fsm) (c : ℕ) → Fits f → length (headline v f c) ≤ 50
unfolding headline
length-headline won f c fits = omega (arith, length-append {0})
length-headline lost f c fits = omega (arith, length-append {0})
length-headline _ f c fits = omega arith

length-response : (v : Verdict) (f : Fsm) (c : ℕ) → Fits f → length (response v f c) ≤ 200
unfolding response
length-response v f c fits =
    omega
      (arith, length-append {0}, length-headline v f c fits, length-board f (drawn_stage v f) fits)

module _ (letters : List ℕ) (f : Fsm) (input : ℕ) (chosen : HasWord f) (ready : Ready letters f)
    (short : length f.hangman_word ≤ max_word_length) where
  -- If a word of at most seven letters is chosen and the record agrees with the rules,
  -- update_hangman keeps every string within its array, its reply is shorter than 512 bytes, and
  -- the reply with the bar behind it shorter than 1024.
  pub update_hangman-Fits :
      Fits (update_hangman f input).0
      × (length (update_hangman f input).1 < 512)
      × (length ((update_hangman f input).1 ++ bar) < 1024)
  update_hangman-Fits =
      let e = update_hangman-eq f input chosen in
      let g = (play_guess f input).fsm in
      let fits : Fits g =
        Follows-Fits g (rw (play_guess-word f input) short)
          (play_guess-Follows letters f input ready) in
      let reply : length (update_hangman f input).1 ≤ 200 =
        rw e (length-response (guess_verdict f input) g (to_lower input) fits) in
      (
        Follows-Fits (update_hangman f input).0 (rw (update_hangman-word f input chosen) short)
            (update_hangman-Follows letters f input chosen ready),
        omega (arith, reply),
        omega (arith, reply, length-append (update_hangman f input).1 bar),
      )
