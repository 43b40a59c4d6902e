-- ===== src/Server/Game.antt =====
-- A guess in a group: the message of a player, the game behind it, and who gets the reply.
use socket_speak.Base.{
  ℕ, ◌≡◌, ◌≢◌, refl, ◌∙◌, List, [], ◌∷◌, ◌++◌, Bool, true, false, some, if◌then◌else◌, get_elem?,
  All-get_elem?, cstr, codes, to_lower, arith,
}
use socket_speak.Hangman.Fsm.{State, initial, playing}
use socket_speak.Hangman.Process.{process_hangman_state}
use socket_speak.Hangman.Rules.{Follows}
use socket_speak.Hangman.Refines.{guessed, Ready}
use socket_speak.Hangman.Verdicts.{IsWord}
use socket_speak.Hangman.Endgame.{HasWord, over}
use socket_speak.Hangman.Rounds.{take_guess, take_guess-outcome}
use socket_speak.Lmp.Code
use socket_speak.Server.State.{Server, GroupMember}
use socket_speak.Server.Users.{free_users}
use socket_speak.Server.Handler.Frames.{Env}
use socket_speak.Server.Handler.Hangman.{
  is_initial, is_player, rule_line, handle_letter, handle_guess, finish_guess,
}
use socket_speak.Server.Handler.Strings.{is_printable, legible-is_printable}
use socket_speak.Server.Handler.Dispatch.{handle_message, handle_member, handle_msg}
use socket_speak.Server.Clients.{clients}
use socket_speak.Server.Synced.{Synced}
use socket_speak.Server.Replies.{frames_for, reply_to_all-frames_for}

-- The text that the players get.
abbrev pub announced : GroupMember → ℕ → List ℕ → List ℕ
announced m guess reply =
    rule_line ++ (cstr m.nickname ++ (codes " guessed '" ++ (guess ∷ (codes "'\n" ++ reply))))

-- The players are freed when the state is back at the beginning.
freed_when :
    (state : State) (done : Bool) (users : List (List ℕ))
    → state ≡ (if done then initial else playing)
    → (if is_initial state then free_users users else users) ≡ (if done then [] else users)
unfolding free_users
freed_when state true users e = rw e refl
freed_when state false users e = rw e refl

module _ (env : Env) (fd j input : ℕ) (behind : List ℕ) (s : Server) (m : GroupMember)
    (there : get_elem? s.group.members j ≡ some m) (player : is_player s (cstr m.uid) ≡ true)
    (turn : s.hangman.state ≡ playing) (letter : input ≢ 0) where
  -- A message of one byte of a player is a guess.
  handle_message_letter :
      is_printable m ≡ true
      → handle_message env fd j Code.msg (input ∷ 0 ∷ behind) 1 s
        ≡ handle_letter env (cstr m.nickname) input s
  unfolding handle_message handle_member handle_msg handle_guess cstr
  handle_message_letter ended =
      let whole : cstr (input ∷ 0 ∷ behind) ≡ input ∷ [] = ground arith in
      rw (whole, handle_message)
        (rw (there, handle_member)
          (rw (legible-is_printable Code.msg (input ∷ []) m s ended)
            (rw (player, handle_msg) (rw turn refl))))

  -- The reply, and the server behind it.
  abbrev said : List ℕ
  said = announced m input (process_hangman_state env.draw s.hangman input).1

  abbrev replied : Server
  replied = record s {
    hangman = (process_hangman_state env.draw s.hangman input).0;
    hangman_old_response = said;
    sends = s.sends ++ frames_for said (clients s) s.users;
  }

  handle_letter-replied :
      Synced s → handle_letter env (cstr m.nickname) input s ≡ some (finish_guess replied)
  unfolding handle_letter clients
  handle_letter-replied h =
      let start : Server = record s {
        hangman = (process_hangman_state env.draw s.hangman input).0;
        hangman_old_response = said;
      } in
      let synced : Synced start = record {
        array = h.array;
        listening = h.listening;
        counted = h.counted;
        room = h.room;
        capacity = h.capacity;
        strings = h.strings;
      } in
      rw (reply_to_all-frames_for said s.users start synced, handle_letter) refl

  -- A guess in a group. If every connection has its member, the strings of the members end in
  -- their arrays, the sender of a message of one byte plays, and a game is on with a lower-case
  -- word and a record that agrees with the rules for the letters guessed so far (or the round is
  -- fresh), then the server handles the message with a result: the record agrees with the rules
  -- for the letters guessed with this one, the word is the same, and the game goes on and keeps
  -- its players, or is back at its start and has none, exactly when the round is over. For each
  -- entry of the list of players one frame more is sent, with the reply that names the sender and
  -- the guess, to the first descriptor that stands with the uid of the entry among the clients,
  -- and none if there is no such client; a player who stands twice in the list gets two. The
  -- clients and the history file are as before.
  pub handle_message-take_guess :
      (letters : List ℕ)
      → Synced s
      → HasWord s.hangman
      → IsWord s.hangman.hangman_word
      → Ready letters s.hangman
      → let letters' = guessed letters (to_lower input) in
        (t : Server) × (handle_message env fd j Code.msg (input ∷ 0 ∷ behind) 1 s ≡ some t)
        × Follows letters' t.hangman
        × (t.hangman.hangman_word ≡ s.hangman.hangman_word)
        × (t.hangman.state ≡ (if over letters' t.hangman then initial else playing))
        × (t.users ≡ (if over letters' t.hangman then [] else s.users))
        × (t.sends ≡ s.sends ++ frames_for said (clients s) s.users)
        × (clients t ≡ clients s)
        × (t.history ≡ s.history)
  unfolding finish_guess take_guess free_users clients
  handle_message-take_guess letters h chosen word ready =
      let (follows, kept, _, state) =
        take_guess-outcome env.draw letters s.hangman input chosen word ready turn in
      (
        finish_guess replied,
        handle_message_letter
              (All-get_elem? (λ m. is_printable m ≡ true) s.group.members j m h.strings there)
            ∙ handle_letter-replied h,
        follows,
        kept,
        state,
        freed_when (finish_guess replied).hangman.state
            (over (guessed letters (to_lower input)) (finish_guess replied).hangman) s.users state,
        refl,
        refl,
        refl,
      )
