-- ===== src/Hangman/Process.antt =====
-- The operations of hangman.c: `update_hangman`, `process_hangman_state`,
-- `hangman_finish_broadcast`. Each returns the new record and the reply.
use socket_speak.Base.{ℕ, List, [], ◌∷◌, ◌++◌, codes, to_lower}
use socket_speak.Hangman.Fsm.{State, initial, playing, update, Fsm, Verdict}
use socket_speak.Hangman.Guess.{Guess, begin_round, apply_guess, judge, settle}
use socket_speak.Hangman.Screen.{response}
use socket_speak.Hangman.Words.{Draw, set_random_word}

-- The guess on a record whose word is chosen, and the branch that replies.
unfoldable pub play_guess : Fsm → ℕ → Guess
play_guess f input = apply_guess (begin_round f) (to_lower input)

unfoldable pub guess_verdict : Fsm → ℕ → Verdict
guess_verdict f input = judge (play_guess f input) (to_lower input)

unfoldable pub update_hangman : Fsm → ℕ → Fsm × List ℕ
update_hangman f input = elim f.hangman_word [
  | [] ↦ (f, codes "No word selected for hangman.")
  | _ ∷ _ ↦ (
    settle (guess_verdict f input) (play_guess f input).fsm,
    response (guess_verdict f input) (play_guess f input).fsm (to_lower input),
  )
]

abbrev pub bar : List ℕ
bar = codes "\n=================================================="

-- The switch on the state.
dispatch_state : State → Draw → Fsm → ℕ → Fsm × List ℕ
dispatch_state initial d f input = (
  record (set_random_word d f) { state = playing },
  codes "Welcome to Hangman! Guess a letter to start playing.",
)
dispatch_state playing d f input =
    let (f', reply) = update_hangman (record f { state = update }) input in (f', reply ++ bar)
dispatch_state update d f input = (f, codes "Game is updating..., please wait for your turn.")

unfoldable pub process_hangman_state : Draw → Fsm → ℕ → Fsm × List ℕ
unfolding dispatch_state
process_hangman_state d f input = dispatch_state f.state d f input

finish_state : State → State
finish_state update = playing
finish_state s = s

unfoldable pub hangman_finish_broadcast : Fsm → Fsm
unfolding finish_state
hangman_finish_broadcast f = record f { state = finish_state f.state }
