-- ===== src/Server/Handler/Hangman.antt =====
-- The cases LMP_GRP_HANGMAN and LMP_MSG, as far as they play, of `handle_client_data`.
-- `i` is the index of the sender among the members, `nick` and `uid` its strings there.
use socket_speak.Base.{
  ℕ, zero, suc, ◌+◌, List, [], ◌∷◌, ◌++◌, Bool, true, false, ◌&&◌, Option, none, some, length,
  get_elem?, ◌==◌, if◌then◌else◌, not, cstr, str_eq, codes,
}
use socket_speak.Base.Int.{ℤ, pos, negsuc}
use socket_speak.Hangman.Fsm.{State, initial, update}
use socket_speak.Hangman.Process.{process_hangman_state, hangman_finish_broadcast}
use socket_speak.Lmp.Code
use socket_speak.Server.State.{Server, GroupMember}
use socket_speak.Server.Users.{add_user, remove_user, free_users, user_in_list}
use socket_speak.Server.Handler.Frames.{Env, send_to, send_to_others}

abbrev pub is_initial : State → Bool
is_initial initial = true
is_initial _ = false

abbrev pub is_update : State → Bool
is_update update = true
is_update _ = false

abbrev pub rule_line : List ℕ
rule_line = codes "==================================================\n[Hangman System] "

abbrev in_progress_msg : List ℕ
in_progress_msg =
    codes
      "[Hangman System] A Hangman game is already in progress. Please join the current game via '/hangman join' or wait for it to finish."

abbrev exit_msg : List ℕ
exit_msg = codes "[Hangman System] You have exited the Hangman game."

abbrev busy_msg : List ℕ
busy_msg =
    codes
      "[Hangman System] The game is currently processing the previous guess, please wait a moment before sending another guess."

abbrev invalid_msg : List ℕ
invalid_msg =
    codes
      "[Hangman System] Invalid input for Hangman. Please guess a single letter. (Type </hangman exit> to leave the game)"

-- The announcement to those who do not play.
abbrev invitation : List ℕ → List ℕ
invitation nick =
    codes "[System] "
    ++ (nick ++ codes " started a new Hangman game, use '/hangman join' to join the game")

-- /hangman start
unfoldable pub hangman_start : Env → ℕ → List ℕ → List ℕ → Server → Server
hangman_start env fd nick uid s =
    let (game, welcome) = process_hangman_state env.draw s.hangman 0 in
    let text = rule_line ++ (nick ++ (codes " started a new Hangman game\n" ++ welcome)) in
    let s' = send_to fd Code.grp_hangman text (record s {
      hangman = game;
      hangman_old_response = text;
      users = add_user env.allocated s.users uid;
    }) in
    if is_initial s.hangman.state
    then send_to_others env fd Code.grp_hangman 0 (invitation nick) s'
    else send_to fd Code.grp_hangman in_progress_msg s

-- /hangman exit
unfoldable pub hangman_exit : ℕ → List ℕ → Server → Server
hangman_exit fd uid s =
    send_to fd Code.grp_hangman exit_msg (record s { users = remove_user s.users uid })

-- /hangman join
unfoldable pub hangman_join : Env → ℕ → List ℕ → Server → Server
hangman_join env fd uid s =
    if is_initial s.hangman.state
    then s
    else send_to fd Code.grp_hangman s.hangman_old_response
        (record s { users = add_user env.allocated s.users uid })

-- The case LMP_GRP_HANGMAN; `text` is the string in the buffer. Any other word does nothing.
unfoldable pub handle_hangman : Env → ℕ → GroupMember → List ℕ → Server → Server
handle_hangman env fd member text s =
    if str_eq text (codes "start")
    then hangman_start env fd (cstr member.nickname) (cstr member.uid) s
    else if str_eq text (codes "exit")
    then hangman_exit fd (cstr member.uid) s
    else if str_eq text (codes "join")
    then hangman_join env fd (cstr member.uid) s
    else s

-- The sender plays: a game is on and its uid is in the list.
unfoldable pub is_player : Server → List ℕ → Bool
is_player s uid = not (is_initial s.hangman.state) && user_in_list s.users uid

-- The index of the first member with the uid, among the first `count`.
unfoldable pub member_index : ℕ → List GroupMember → List ℕ → Option ℕ
member_index zero members uid = none
member_index (suc n) [] uid = none
member_index (suc n) (m ∷ members) uid =
    let rest = member_index n members uid in
    if str_eq (cstr m.uid) uid then some 0 else elim rest [ none ↦ none | some j ↦ some (suc j) ]

abbrev pub count_of : ℤ → ℕ
count_of (pos n) = n
count_of (negsuc n) = 0

-- The reply to one player; one who has left the group is passed over. `none` is a descriptor read
-- behind the end of the poll array.
unfoldable pub reply_to : List ℕ → List ℕ → Server → Option Server
reply_to text uid s = elim (member_index (count_of s.group.member_count) s.group.members uid) [
  | none ↦ some s
  | some j ↦ elim (get_elem? s.pfds (j + 1)) [
    | none ↦ none
    | some fd ↦ some (send_to fd Code.grp_hangman text s)
  ]
]

-- The loop over the players.
unfoldable pub reply_to_all : List ℕ → List (List ℕ) → Server → Option Server
reply_to_all text [] s = some s
reply_to_all text (uid ∷ users) s = elim (reply_to text uid s) [
  | none ↦ none
  | some s' ↦ reply_to_all text users s'
]

-- The end of a guess: the game goes on, or its players are freed.
unfoldable pub finish_guess : Server → Server
finish_guess s =
    let game = hangman_finish_broadcast s.hangman in
    record s {
      hangman = game;
      users = if is_initial game.state then free_users s.users else s.users;
    }

-- A guess of one letter.
unfoldable pub handle_letter : Env → List ℕ → ℕ → Server → Option Server
handle_letter env nick guess s =
    let (game, reply) = process_hangman_state env.draw s.hangman guess in
    let text = rule_line ++ (nick ++ (codes " guessed '" ++ (guess ∷ (codes "'\n" ++ reply)))) in
    elim (reply_to_all text s.users (record s { hangman = game; hangman_old_response = text })) [
      | none ↦ none
      | some s' ↦ some (finish_guess s')
    ]

-- The message of a player.
unfoldable pub handle_guess : Env → ℕ → List ℕ → List ℕ → Server → Option Server
handle_guess env fd nick [] s =
    some
      (send_to fd Code.grp_hangman (if is_update s.hangman.state then busy_msg else invalid_msg) s)
handle_guess env fd nick (guess ∷ more) s =
    if is_update s.hangman.state
    then some (send_to fd Code.grp_hangman busy_msg s)
    else if length (guess ∷ more) == 1
    then handle_letter env nick guess s
    else some (send_to fd Code.grp_hangman invalid_msg s)
