-- ===== src/Server/Senders.antt =====
-- The sender's byte in the frames of the server: the index of a member, which a client looks up.
use socket_speak.Base.{
  ℕ, ◌+◌, ◌%◌, ◌<◌, ◌≡◌, refl, sym, subst, inl, inr, List, [], ◌∷◌, ◌++◌, map, Bool, true, false,
  Option, none, some, if◌then◌else◌, get_elem?, take, cstr, str_eq, All, All-append, Option-cases,
  codes, arith,
}
use socket_speak.Hangman.Process.{process_hangman_state}
use socket_speak.Lmp.Code
use socket_speak.Server.State.{Server, GroupMember, Send, max_group_members}
use socket_speak.Server.History.{history_lines}
use socket_speak.Server.Handler.Frames.{
  Env, others, frames, send_to, send_to_others, send_new_group_to_users, member_at,
}
use socket_speak.Server.Handler.Hangman.{
  handle_hangman, hangman_start, hangman_exit, hangman_join, handle_guess, handle_letter, reply_to,
  reply_to_all, member_index, count_of, finish_guess, rule_line,
}
use socket_speak.Server.Handler.Strings.{is_printable}
use socket_speak.Server.Handler.Dispatch.{
  handle_nick, append_member, member_of_buffer, handle_init_member, handle_load, handle_other,
  handle_msg, handle_member, handle_message,
}

abbrev pub IsLow : Send → Type 0
IsLow f = f.sender < max_group_members

-- Every frame that was sent names a place of the array.
pub record Low (s : Server) : Type 0 where
  pub low : All IsLow s.sends

pub record LowIfAny (o : Option Server) : Type 0 where
  pub after : (s : Server) → o ≡ some s → Low s

some_inj : (s t : Server) → some s ≡ some t → s ≡ t
some_inj s t e = cc

LowIfAny-some : (s : Server) → Low s → LowIfAny (some s)
LowIfAny-some s h = record { after = λ t e. subst Low (some_inj s t e) h }

LowIfAny-none : LowIfAny none
LowIfAny-none = record { after = λ t e. absurd (cc) }

more-Low :
    (s t : Server) (sent : List Send) → Low s → t.sends ≡ s.sends ++ sent → All IsLow sent → Low t
more-Low s t sent h e k = record {
  low = subst (All IsLow) (sym e) (All-append IsLow s.sends sent h.low k);
}

-- A change of anything but the frames.
kept-Low : (s t : Server) → Low s → s.sends ≡ t.sends → Low t
kept-Low s t h e = record { low = subst (All IsLow) e h.low }

Low-if : (b : Bool) (s t : Server) → Low s → Low t → Low (if b then s else t)
Low-if true s t hs ht = hs
Low-if false s t hs ht = ht

LowIfAny-if :
    (b : Bool) (s t : Option Server) → LowIfAny s → LowIfAny t → LowIfAny (if b then s else t)
LowIfAny-if true s t hs ht = hs
LowIfAny-if false s t hs ht = ht

frames-IsLow :
    (type sender : ℕ) (payload fds : List ℕ)
    → sender < max_group_members
    → All IsLow (frames type sender payload fds)
frames-IsLow type sender payload [] h = tt
frames-IsLow type sender payload (fd ∷ fds) h = (h, frames-IsLow type sender payload fds h)

lines-IsLow :
    (frame : List ℕ → Send) (lines : List (List ℕ))
    → ((line : List ℕ) → IsLow (frame line))
    → All IsLow (map frame lines)
lines-IsLow frame [] h = tt
lines-IsLow frame (line ∷ lines) h = (h line, lines-IsLow frame lines h)

send_to-Low :
    (fd type : ℕ) (payload : List ℕ) (s : Server) → Low s → Low (send_to fd type payload s)
unfolding send_to
send_to-Low fd type payload s h =
    more-Low s _ (record { fd = fd; type = type; sender = 0; payload = payload } ∷ []) h refl
      (omega arith, tt)

send_to_others-Low :
    (env : Env) (fd type sender : ℕ) (payload : List ℕ) (s : Server)
    → sender < max_group_members
    → Low s
    → Low (send_to_others env fd type sender payload s)
unfolding send_to_others
send_to_others-Low env fd type sender payload s small h =
    more-Low s _ (frames type (sender % 256) payload (others env.listener fd s.pfds)) h refl
      (frames-IsLow type (sender % 256) payload (others env.listener fd s.pfds) (omega arith))

send_new_group-Low : (env : Env) (s : Server) → Low s → Low (send_new_group_to_users env s)
unfolding send_new_group_to_users
send_new_group-Low env s h =
    more-Low s _
      (frames Code.grp_obj 0 (env.image s.group) (others env.listener env.listener s.pfds)) h refl
      (frames-IsLow Code.grp_obj 0 (env.image s.group) _ (omega arith))

loading : ℕ → List ℕ → Send
loading fd line = record { fd = fd; type = Code.grp_loading_msg; sender = 0; payload = cstr line }

loaded-IsLow :
    (fd : ℕ) (lines : List (List ℕ)) (b : Bool)
    → All IsLow (if b then map (loading fd) lines else [])
unfolding loading
loaded-IsLow fd lines true = lines-IsLow (loading fd) lines (λ line. omega arith)
loaded-IsLow fd lines false = tt

module _ (env : Env) (s : Server) (h : Low s) where
  handle_load-Low : (fd : ℕ) → Low (handle_load env fd s)
  unfolding handle_load loading
  handle_load-Low fd =
      let sent = if env.history_reads then map (loading fd) (history_lines s.history) else [] in
      send_to-Low fd Code.grp_load_msg [] (record s { sends = s.sends ++ sent })
        (more-Low s _ sent h refl (loaded-IsLow fd (history_lines s.history) env.history_reads))

  hangman_start-Low : (fd : ℕ) (nick uid : List ℕ) → Low (hangman_start env fd nick uid s)
  unfolding hangman_start
  hangman_start-Low fd nick uid =
      Low-if _ _ _
        (send_to_others-Low env fd Code.grp_hangman 0 _ _ (omega arith)
          (send_to-Low fd Code.grp_hangman _ _ (kept-Low s _ h refl)))
        (send_to-Low fd Code.grp_hangman _ s h)

  hangman_exit-Low : (fd : ℕ) (uid : List ℕ) → Low (hangman_exit fd uid s)
  unfolding hangman_exit
  hangman_exit-Low fd uid = send_to-Low fd Code.grp_hangman _ _ (kept-Low s _ h refl)

  hangman_join-Low : (fd : ℕ) (uid : List ℕ) → Low (hangman_join env fd uid s)
  unfolding hangman_join
  hangman_join-Low fd uid =
      Low-if _ s _ h (send_to-Low fd Code.grp_hangman _ _ (kept-Low s _ h refl))

  handle_hangman-Low :
      (fd : ℕ) (m : GroupMember) (text : List ℕ) → Low (handle_hangman env fd m text s)
  unfolding handle_hangman
  handle_hangman-Low fd m text =
      Low-if (str_eq text (codes "start")) _ _ (hangman_start-Low fd (cstr m.nickname) (cstr m.uid))
        (Low-if (str_eq text (codes "exit")) _ _ (hangman_exit-Low fd (cstr m.uid))
          (Low-if (str_eq text (codes "join")) _ s (hangman_join-Low fd (cstr m.uid)) h))

reply_to-Low : (text uid : List ℕ) (s : Server) → Low s → LowIfAny (reply_to text uid s)
unfolding reply_to
reply_to-Low text uid s h =
    elim (Option-cases (member_index (count_of s.group.member_count) s.group.members uid)) [
      | inl absent ↦ rw (absent, reply_to) (LowIfAny-some s h)
      | inr (j, at) ↦ elim (Option-cases (get_elem? s.pfds (j + 1))) [
        | inl outside ↦ rw (at, reply_to) (rw outside LowIfAny-none)
        | inr (fd, there) ↦
            rw (at, reply_to)
              (rw there (LowIfAny-some _ (send_to-Low fd Code.grp_hangman text s h)))
      ]
    ]

reply_to_all-Low :
    (text : List ℕ) (users : List (List ℕ)) (s : Server)
    → Low s
    → LowIfAny (reply_to_all text users s)
unfolding reply_to_all
reply_to_all-Low text [] s h = LowIfAny-some s h
reply_to_all-Low text (uid ∷ users) s h = elim (Option-cases (reply_to text uid s)) [
  | inl outside ↦ rw (outside, reply_to_all) LowIfAny-none
  | inr (t, replied) ↦
      rw (replied, reply_to_all)
        (reply_to_all-Low text users t ((reply_to-Low text uid s h).after t replied))
]

finish_guess-Low : (s : Server) → Low s → Low (finish_guess s)
unfolding finish_guess
finish_guess-Low s h = kept-Low s _ h refl

module _ (env : Env) (s : Server) (h : Low s) where
  handle_letter-Low : (nick : List ℕ) (guess : ℕ) → LowIfAny (handle_letter env nick guess s)
  unfolding handle_letter
  handle_letter-Low nick guess =
      let (game, reply) = process_hangman_state env.draw s.hangman guess in
      let text = rule_line ++ (nick ++ (codes " guessed '" ++ (guess ∷ (codes "'\n" ++ reply)))) in
      let start : Server = record s { hangman = game; hangman_old_response = text } in
      elim (Option-cases (reply_to_all text s.users start)) [
        | inl outside ↦ rw (outside, handle_letter) LowIfAny-none
        | inr (t, replied) ↦
            rw (replied, handle_letter)
              (LowIfAny-some (finish_guess t) (
                finish_guess-Low t (
                  (reply_to_all-Low text s.users start (kept-Low s start h refl)).after t replied)))
      ]

  told : (fd : ℕ) (text : List ℕ) → LowIfAny (some (send_to fd Code.grp_hangman text s))
  told fd text = LowIfAny-some _ (send_to-Low fd Code.grp_hangman text s h)

  handle_guess-Low : (fd : ℕ) (nick text : List ℕ) → LowIfAny (handle_guess env fd nick text s)
  unfolding handle_guess
  handle_guess-Low fd nick [] = told fd _
  handle_guess-Low fd nick (guess ∷ more) =
      LowIfAny-if _ _ _ (told fd _) (LowIfAny-if _ _ _ (handle_letter-Low nick guess) (told fd _))

  module _ (fd j : ℕ) (small : j < max_group_members) where
    handle_other-Low :
        (type : ℕ) (payload : List ℕ) (t : Server)
        → Low t
        → Low (handle_other env fd j type payload t)
    unfolding handle_other
    handle_other-Low type payload t k = send_to_others-Low env fd type j payload t small k

    handle_msg-Low :
        (m : GroupMember) (text payload : List ℕ) → LowIfAny (handle_msg env fd j m text payload s)
    unfolding handle_msg
    handle_msg-Low m text payload =
        LowIfAny-if _ _ _ (handle_guess-Low fd (cstr m.nickname) text)
          (LowIfAny-some _ (handle_other-Low Code.msg payload _ (kept-Low s _ h refl)))

    handle_nick-Low : (m : GroupMember) (text : List ℕ) → Low (handle_nick env j m text s)
    unfolding handle_nick
    handle_nick-Low m text = send_new_group-Low env _ (kept-Low s _ h refl)

    handle_member-Low :
        (type : ℕ) (text payload : List ℕ) (m : Option GroupMember)
        → LowIfAny (handle_member env fd j type text payload m s)
    unfolding handle_member
    handle_member-Low type text payload none = LowIfAny-none
    handle_member-Low type text payload (some m) = LowIfAny-if _ _ _ LowIfAny-none (
        LowIfAny-if _ _ _ (LowIfAny-some _ (handle_nick-Low m text)) (
          LowIfAny-if _ _ _ (LowIfAny-some _ (handle_load-Low env s h fd)) (
            LowIfAny-if _ _ _ (LowIfAny-some _ (handle_hangman-Low env s h fd m text))
              (handle_msg-Low m text payload))))

    handle_init_member-Low : (buf : List ℕ) → LowIfAny (handle_init_member env buf s)
    unfolding handle_init_member
    handle_init_member-Low buf =
        LowIfAny-if (is_printable (member_of_buffer buf)) _ _
          (elim (Option-cases (append_member s.group.member_count (member_of_buffer buf) s.group)) [
            | inl outside ↦ rw outside LowIfAny-none
            | inr (g, added) ↦ rw added (
                LowIfAny-some _
                  (send_new_group-Low env (record s { group = g }) (kept-Low s _ h refl)))
          ])
          LowIfAny-none

    pub handle_message-Low :
        (type : ℕ) (buf : List ℕ) (len : ℕ) → LowIfAny (handle_message env fd j type buf len s)
    unfolding handle_message
    handle_message-Low type buf len = LowIfAny-if _ _ _ (handle_init_member-Low buf) (
        LowIfAny-if _ _ _ (handle_member-Low type (cstr buf) (take len buf) (member_at s j))
          (LowIfAny-some _ (handle_other-Low type (take len buf) s h)))
