-- ===== src/Hangman/Endgame.antt =====
-- Where a guess leaves the round, and that every round ends: the calls that the server makes on a
-- guess (group_server_comms.c), `process_hangman_state` and then `hangman_finish_broadcast`.
use socket_speak.Base.{
  ℕ, ◌≡◌, refl, ◌∙◌, ap, ◌≢◌, List, [], Bool, true, false, ◌||◌, not, arith, leb, if◌then◌else◌,
  to_lower,
}
use socket_speak.Hangman.Fsm.{initial, Fsm, Verdict, won, lost}
use socket_speak.Hangman.Guess.{begin_round, record_miss, apply_guess, settle}
use socket_speak.Hangman.Screen.{response}
use socket_speak.Hangman.Process.{play_guess, guess_verdict, update_hangman}
use socket_speak.Hangman.Rules.{Follows}
use socket_speak.Hangman.Refines.{guessed, Ready, play_guess-Follows, play_guess-word}
use socket_speak.Hangman.Verdicts.{IsWord, solved, rule_verdict, guess_verdict-rules}

-- A word was chosen.
abbrev pub HasWord : Fsm → Type 0
HasWord f = f.hangman_word ≢ []

pub update_hangman-eq :
    (f : Fsm) (input : ℕ)
    → HasWord f
    → update_hangman f input ≡ (
      settle (guess_verdict f input) (play_guess f input).fsm,
      response (guess_verdict f input) (play_guess f input).fsm (to_lower input),
    )
unfolding update_hangman
update_hangman-eq f input h = ground arith

settle-Follows :
    {letters : List ℕ} (v : Verdict) (f : Fsm) → Follows letters f → Follows letters (settle v f)
unfolding settle
settle-Follows won f h = record { shown = h.shown; listed = h.listed; once = h.once; paid = h.paid }
settle-Follows lost f h = record {
  shown = h.shown;
  listed = h.listed;
  once = h.once;
  paid = h.paid;
}
settle-Follows _ f h = h

-- The round is over: every letter is guessed, or no attempt is left.
unfoldable pub over : List ℕ → Fsm → Bool
over letters f = solved f.hangman_word letters || leb f.attempts_left 0

abbrev ends : Verdict → Bool
ends won = true
ends lost = true
ends _ = false

settle_fields :
    (v : Verdict) (f : Fsm)
    → ((settle v f).state ≡ (if ends v then initial else f.state))
      × ((settle v f).hangman_round_initialized
          ≡ (if ends v then false else f.hangman_round_initialized))
      × ((settle v f).attempts_left ≡ f.attempts_left)
      × ((settle v f).hangman_word ≡ f.hangman_word)
unfolding settle
settle_fields won f = (refl, refl, refl, refl)
settle_fields lost f = (refl, refl, refl, refl)
settle_fields _ f = (refl, refl, refl, refl)

ends-rule_verdict :
    (word letters : List ℕ) (c left : ℕ)
    → ends (rule_verdict word letters c left) ≡ (solved word (guessed letters c) || leb left 0)
unfolding rule_verdict
ends-rule_verdict word letters c left = ground arith

begin_round-begun :
    (f : Fsm)
    → ((begin_round f).hangman_round_initialized ≡ true) × ((begin_round f).state ≡ f.state)
unfolding begin_round
begin_round-begun f = ground arith

apply_guess-begun :
    (f : Fsm) (c : ℕ)
    → ((apply_guess f c).fsm.hangman_round_initialized ≡ f.hangman_round_initialized)
      × ((apply_guess f c).fsm.state ≡ f.state)
unfolding apply_guess record_miss
apply_guess-begun f c = ground arith

play_guess-begun :
    (f : Fsm) (input : ℕ)
    → ((play_guess f input).fsm.hangman_round_initialized ≡ true)
      × ((play_guess f input).fsm.state ≡ f.state)
unfolding play_guess
play_guess-begun f input =
    let (begun, state) = begin_round-begun f in
    let (kept, same) = apply_guess-begun (begin_round f) (to_lower input) in
    (kept ∙ begun, same ∙ state)

pub update_hangman-word :
    (f : Fsm) (input : ℕ) → HasWord f → (update_hangman f input).0.hangman_word ≡ f.hangman_word
update_hangman-word f input chosen =
    ap (λ r. r.0.hangman_word) (update_hangman-eq f input chosen)
    ∙ (settle_fields (guess_verdict f input) (play_guess f input).fsm).3
    ∙ play_guess-word f input

module _ (letters : List ℕ) (f : Fsm) (input : ℕ) (chosen : HasWord f)
    (ready : Ready letters f) where
  -- If a word is chosen and the record agrees with the rules for the letters guessed so far (or
  -- the round is fresh), then after update_hangman on any input it agrees with the rules for the
  -- letters guessed with that input: the revealed word is the word with the guessed letters
  -- uncovered, the wrong letters are listed once each, and each has cost one attempt.
  pub update_hangman-Follows : Follows (guessed letters (to_lower input)) (update_hangman f input).0
  update_hangman-Follows = rw (update_hangman-eq f input chosen) (
      settle-Follows (guess_verdict f input) (play_guess f input).fsm
        (play_guess-Follows letters f input ready))

  module _ (word : IsWord f.hangman_word) where
    ends-over :
        ends (guess_verdict f input)
        ≡ over (guessed letters (to_lower input)) (play_guess f input).fsm
    unfolding over
    ends-over =
        rw (guess_verdict-rules letters f input word ready, play_guess-word f input)
          (ends-rule_verdict f.hangman_word letters (to_lower input) _)

    -- If a lower-case word is chosen and the record agrees with the rules, update_hangman returns
    -- the state to initial and clears the flag of the round exactly when the round is over, every
    -- letter guessed or no attempt left; else the state stays and the flag is set. The word stays
    -- in both cases.
    pub update_hangman-over :
        let o = (update_hangman f input).0 in
        let done = over (guessed letters (to_lower input)) o in
        (o.state ≡ (if done then initial else f.state))
        × (o.hangman_round_initialized ≡ not done)
        × (o.hangman_word ≡ f.hangman_word)
    unfolding over
    update_hangman-over = rw (update_hangman-eq f input chosen) (
        ground (
          arith,
          settle_fields (guess_verdict f input) (play_guess f input).fsm,
          play_guess-begun f input,
          play_guess-word f input,
          ends-over,
        ))
