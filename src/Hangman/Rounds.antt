-- ===== src/Hangman/Rounds.antt =====
-- Whole rounds: the calls that the server makes on each guess of a round (group_server_comms.c),
-- `process_hangman_state` and, once the reply is sent, `hangman_finish_broadcast`.
use socket_speak.Base.{
  ℕ, ◌<◌, ◌≡◌, refl, sym, ◌∙◌, inl, inr, List, [], ◌∷◌, ◌++◌, map, Bool, true, false, ◌||◌, not,
  arith, if◌then◌else◌, contains, is_alpha, to_lower, Bool-cases, is_lower,
}
use socket_speak.Hangman.Fsm.{State, initial, playing, update, Fsm}
use socket_speak.Hangman.Words.{Draw}
use socket_speak.Hangman.Process.{
  update_hangman, process_hangman_state, hangman_finish_broadcast, bar,
}
use socket_speak.Hangman.Rules.{Follows}
use socket_speak.Hangman.Refines.{guessed, Ready}
use socket_speak.Hangman.Verdicts.{IsWord, solved}
use socket_speak.Hangman.Endgame.{HasWord, over, update_hangman-Follows, update_hangman-over}

-- One guess of a player: the reply is broadcast between the two calls.
unfoldable pub take_guess : Draw → Fsm → ℕ → Fsm
take_guess d f input = hangman_finish_broadcast (process_hangman_state d f input).0

-- Guesses are taken until the round is over.
unfoldable pub play_round : Draw → Fsm → List ℕ → Fsm
play_round d f [] = f
play_round d f (input ∷ inputs) = elim f.state [
  | initial ↦ f
  | _ ↦ play_round d (take_guess d f input) inputs
]

-- In `playing`, a guess is `update_hangman` on the record marked `update`.
process_playing :
    (d : Draw) (f : Fsm) (input : ℕ)
    → f.state ≡ playing
    → process_hangman_state d f input
      ≡ (let (f', reply) = update_hangman (record f { state = update }) input in (f', reply ++ bar))
unfolding process_hangman_state
process_playing d f input h = rw h

Follows-state :
    {letters : List ℕ} (f : Fsm) (s : State)
    → Follows letters f
    → Follows letters (record f { state = s })
Follows-state f s h = record { shown = h.shown; listed = h.listed; once = h.once; paid = h.paid }

Ready-state :
    (letters : List ℕ) (f : Fsm) (s : State)
    → Ready letters f
    → Ready letters (record f { state = s })
Ready-state letters f s (inl fresh) = inl fresh
Ready-state letters f s (inr (begun, follows, alive)) =
    inr (begun, Follows-state f s follows, alive)

finish-Follows :
    {letters : List ℕ} (f : Fsm) → Follows letters f → Follows letters (hangman_finish_broadcast f)
unfolding hangman_finish_broadcast
finish-Follows f h = Follows-state f _ h

finish_fields :
    (f : Fsm)
    → ((hangman_finish_broadcast f).hangman_word ≡ f.hangman_word)
      × ((hangman_finish_broadcast f).attempts_left ≡ f.attempts_left)
      × ((hangman_finish_broadcast f).hangman_round_initialized ≡ f.hangman_round_initialized)
unfolding hangman_finish_broadcast
finish_fields f = (refl, refl, refl)

finish_state_of :
    (f : Fsm) (done : Bool)
    → f.state ≡ (if done then initial else update)
    → (hangman_finish_broadcast f).state ≡ (if done then initial else playing)
unfolding hangman_finish_broadcast
finish_state_of f done h = ground arith

module _ (d : Draw) (letters : List ℕ) (f : Fsm) (input : ℕ) (chosen : HasWord f)
    (word : IsWord f.hangman_word) (ready : Ready letters f) (turn : f.state ≡ playing) where
  abbrev busy : Fsm
  busy = record f { state = update }

  take_guess-eq : take_guess d f input ≡ hangman_finish_broadcast (update_hangman busy input).0
  unfolding take_guess
  take_guess-eq = rw (process_playing d f input turn)

  -- Where a guess leaves the game once its reply is sent.
  pub take_guess-outcome :
      let o = take_guess d f input in
      let letters' = guessed letters (to_lower input) in
      Follows letters' o
      × (o.hangman_word ≡ f.hangman_word)
      × (o.hangman_round_initialized ≡ not (over letters' o))
      × (o.state ≡ (if over letters' o then initial else playing))
  unfolding over
  take_guess-outcome =
      let o = (update_hangman busy input).0 in
      let ready' = Ready-state letters f update ready in
      let (state, begun, same) = update_hangman-over letters busy input chosen ready' word in
      let (word', left, kept) = finish_fields o in
      rw take_guess-eq (
        finish-Follows o (update_hangman-Follows letters busy input chosen ready'),
        word' ∙ same,
        rw (word', left) (kept ∙ begun),
        rw (word', left) (finish_state_of o (over (guessed letters (to_lower input)) o) state),
      )

contains-append :
    (xs ys : List ℕ) (c : ℕ) → contains (xs ++ ys) c ≡ (contains xs c || contains ys c)
unfolding contains
contains-append [] ys c = refl
contains-append (x ∷ xs) ys c = ground (arith, contains-append xs ys c)

solved_mono :
    (w xs ys : List ℕ)
    → IsWord w
    → ((c : ℕ) → is_lower c ≡ true → contains xs c ≡ true → contains ys c ≡ true)
    → solved w xs ≡ true
    → solved w ys ≡ true
unfolding solved
solved_mono [] xs ys word h s = refl
solved_mono (x ∷ w) xs ys word h s = ground (arith, h x word.0, solved_mono w xs ys word.1 h)

lower-is_alpha : (c : ℕ) → is_lower c ≡ true → is_alpha c ≡ true
unfolding is_alpha
lower-is_alpha c h = ground arith

contains_letter :
    (input : ℕ) (inputs letters : List ℕ) (c : ℕ)
    → is_lower c ≡ true
    → contains (map to_lower (input ∷ inputs) ++ letters) c ≡ true
    → contains (map to_lower inputs ++ guessed letters (to_lower input)) c ≡ true
unfolding contains
contains_letter input inputs letters c low h = ground (
  arith,
  lower-is_alpha c low,
  contains-append (map to_lower inputs) letters c,
  contains-append (map to_lower inputs) (guessed letters (to_lower input)) c,
)

-- An input that has been taken moves from the inputs to the letters.
covered_step :
    (w inputs letters : List ℕ) (input : ℕ)
    → IsWord w
    → solved w (map to_lower (input ∷ inputs) ++ letters) ≡ true
    → solved w (map to_lower inputs ++ guessed letters (to_lower input)) ≡ true
covered_step w inputs letters input word =
    solved_mono w _ _ word (contains_letter input inputs letters)

play_round_initial :
    (d : Draw) (f : Fsm) (inputs : List ℕ) → f.state ≡ initial → play_round d f inputs ≡ f
unfolding play_round
play_round_initial d f [] h = refl
play_round_initial d f (input ∷ inputs) h = ground arith

play_round_playing :
    (d : Draw) (f : Fsm) (input : ℕ) (inputs : List ℕ)
    → f.state ≡ playing
    → play_round d f (input ∷ inputs) ≡ play_round d (take_guess d f input) inputs
unfolding play_round
play_round_playing d f input inputs h = ground arith

-- While a round is not over, its players can go on.
not_over :
    (letters : List ℕ) (f : Fsm)
    → over letters f ≡ false
    → (solved f.hangman_word letters ≡ false) × (0 < f.attempts_left)
unfolding over
not_over letters f h = ground arith

-- If a lower-case word is chosen and not yet solved, the record agrees with the rules and the
-- state is playing, then guesses that include every letter still hidden bring the game back to the
-- initial state.
pub play_round-ends :
    (d : Draw) (inputs letters : List ℕ) (f : Fsm)
    → HasWord f
    → IsWord f.hangman_word
    → Ready letters f
    → f.state ≡ playing
    → solved f.hangman_word letters ≡ false
    → solved f.hangman_word (map to_lower inputs ++ letters) ≡ true
    → (play_round d f inputs).state ≡ initial
play_round-ends d [] letters f chosen word ready turn hidden covered = cc
play_round-ends d (input ∷ inputs) letters f chosen word ready turn hidden covered =
    let letters' = guessed letters (to_lower input) in
    let o = take_guess d f input in
    let (follows, same, begun, state) =
      take_guess-outcome d letters f input chosen word ready turn in
    rw (play_round_playing d f input inputs turn) (elim (Bool-cases (over letters' o)) [
      | inl done ↦
          let ended : o.state ≡ initial = state ∙ rw done in
          rw (play_round_initial d o inputs ended) ended
      | inr open_ ↦
          let (hidden', alive) = not_over letters' o open_ in
          play_round-ends d inputs letters' o (λ e. chosen (sym same ∙ e)) (rw same word)
            (inr (begun ∙ rw open_, follows, alive)) (state ∙ rw open_) hidden'
            (rw same (covered_step f.hangman_word inputs letters input word covered))
    ])

-- Without a word no guess changes anything: the game waits for guesses for ever.
take_guess_no_word :
    (d : Draw) (f : Fsm) (input : ℕ)
    → f.hangman_word ≡ []
    → f.state ≡ playing
    → take_guess d f input ≡ f
unfolding take_guess process_hangman_state update_hangman hangman_finish_broadcast
take_guess_no_word d f input e turn = ground arith

-- If no word was chosen and the state is playing, guesses change nothing, however many: the game
-- stays in playing.
pub play_round_no_word :
    (d : Draw) (f : Fsm) (inputs : List ℕ)
    → f.hangman_word ≡ []
    → f.state ≡ playing
    → play_round d f inputs ≡ f
unfolding play_round
play_round_no_word d f [] e turn = refl
play_round_no_word d f (input ∷ inputs) e turn =
    play_round_playing d f input inputs turn
    ∙ rw (take_guess_no_word d f input e turn) (play_round_no_word d f inputs e turn)
