-- ===== src/Examples/Game.antt =====
-- ann plays, and guesses a letter of the word (group_server_comms.c, hangman.c).
use socket_speak.Base.{
  All, contains, ◌≡◌, refl, inl, [], ◌∷◌, ◌++◌, some, if◌then◌else◌, codes, to_lower, true,
  is_lower, cstr, str_eq, ◌≢◌, arith,
}
use socket_speak.Hangman.Fsm.{initial, playing}
use socket_speak.Hangman.Process.{process_hangman_state}
use socket_speak.Hangman.Rules.{Follows}
use socket_speak.Hangman.Verdicts.{IsWord}
use socket_speak.Hangman.Refines.{guessed}
use socket_speak.Hangman.Endgame.{over}
use socket_speak.Lmp.Code
use socket_speak.Server.State.{Server}
use socket_speak.Server.Users.{user_in_list}
use socket_speak.Server.Handler.Hangman.{is_player}
use socket_speak.Server.Handler.Dispatch.{handle_message}
use socket_speak.Server.Handler.Strings.{is_printable}
use socket_speak.Server.Clients.{clients}
use socket_speak.Server.Synced.{Synced}
use socket_speak.Server.Replies.{frames_for}
use socket_speak.Server.Game.{announced, handle_message-take_guess}
use socket_speak.Examples.Server.{env, ann, pair, no_game, uid_a, uid_b}

abbrev game : Server
game = record pair {
  hangman = record no_game { state = playing; hangman_word = codes "cat" };
  users = uid_b ∷ uid_a ∷ [];
}

game-strings : All (λ m. is_printable m ≡ true) game.group.members
unfolding contains
game-strings = (refl, (refl, (refl, (refl, (refl, (refl, (refl, (refl, (refl, (refl, tt))))))))))

game-Synced : Synced game
game-Synced = record {
  array = refl;
  listening = omega arith;
  counted = refl;
  room = omega arith;
  capacity = omega arith;
  strings = game-strings;
}

game-is_player : is_player game (cstr ann.uid) ≡ true
unfolding is_player user_in_list str_eq cstr
game-is_player = refl

game-word : game.hangman.hangman_word ≢ []
game-word = ground arith

game-IsWord : IsWord game.hangman.hangman_word
unfolding is_lower
game-IsWord = (refl, (refl, (refl, tt)))

handle_message-take_guess_example :
    let letters' = guessed [] (to_lower b'a') in
    (t : Server) × (handle_message env 4 0 Code.msg (b'a' ∷ 0 ∷ []) 1 game ≡ some t)
    × Follows letters' t.hangman
    × (t.hangman.hangman_word ≡ codes "cat")
    × (t.hangman.state ≡ (if over letters' t.hangman then initial else playing))
    × (t.users ≡ (if over letters' t.hangman then [] else uid_b ∷ uid_a ∷ []))
    × (t.sends
        ≡ []
          ++ frames_for
              (announced ann b'a' (process_hangman_state env.draw game.hangman b'a').1)
              (clients game)
              game.users)
    × (clients t ≡ clients game)
    × (t.history ≡ [])
handle_message-take_guess_example =
    handle_message-take_guess env 4 0 b'a' [] game ann refl game-is_player refl (ground arith) []
      game-Synced game-word game-IsWord (inl (refl, refl))
