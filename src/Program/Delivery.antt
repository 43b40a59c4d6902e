-- ===== src/Program/Delivery.antt =====
-- A message in a group, from the line that one client types to the screen of another
-- (group_user_comms.c, group_server_comms.c).
use mathlib.Core.List.{append_assoc}
use socket_speak.Base.{
  ℕ, ◌%◌, ◌<◌, ◌≡◌, refl, ap, ◌∙◌, List, [], ◌∷◌, ◌++◌, false, true, some, length, get_elem?,
  take-append_exact, codes, cstr, cstr_end, IsString, arith,
}
use socket_speak.Process.{Os, done, ◌>>=◌}
use socket_speak.Lmp.Code
use socket_speak.Lmp.Registry.{command_success, dispatch_send}
use socket_speak.Lmp.Frame.{message}
use socket_speak.Lmp.Lines.{IsPlain, user_line_plain, dispatch_send-words}
use socket_speak.Lmp.Commands.{call_send-msg}
use socket_speak.Server.History.{save_message_to_history}
use socket_speak.Server.State.{Server, GroupMember, max_group_members}
use socket_speak.Server.Handler.Frames.{Env, others, frames, send_to_others}
use socket_speak.Server.Handler.Hangman.{is_player}
use socket_speak.Server.Handler.Strings.{has_nul, legible_idle}
use socket_speak.Server.Handler.Dispatch.{handle_message, handle_member, handle_msg, handle_other}
use socket_speak.Chat.History.{
  Chat, print, append_file, append_to, history_line, lmp_history_append,
}
use socket_speak.Chat.Handlers.{after_send, msg_send, msg_recv}
use socket_speak.Chat.Transcript.{lmp_history_append-same}
use socket_speak.Program.World.{Setting, World, chat_of, with_chat, handlers, command_table}
use socket_speak.Program.Loop.{
  clear_line, printed, print_prompt, report, run_line, send_plain, named, amend, user_chat_line,
  group_receiver,
}
use socket_speak.Program.Heard.{message_of, receive_message_text}

-- A plain line of a group client is the command `msg`.
dispatch_text :
    (g : Setting) (text : List ℕ) (w : World)
    → g.os.sends ≡ true
    → length text < 252
    → dispatch_send (command_table g) (codes "msg" ++ (b' ' ∷ text)) (done w)
      ≡ (command_success, done (send_plain g text w))
unfolding command_table handlers msg_send after_send
dispatch_text g text w sends short =
    dispatch_send-words (command_table g) (done w) b'm' (codes "sg") text (omega arith)
      (omega arith)
    ∙ call_send-msg (handlers g) text (done w)
    ∙ rw sends refl

user_chat_line_plain :
    (g : Setting) (text : List ℕ) (w : World)
    → g.os.sends ≡ true
    → IsPlain text
    → length text < 252
    → user_chat_line g text w ≡ done (send_plain g text w)
unfolding user_chat_line run_line report
user_chat_line_plain g text w sends plain short =
    rw (user_line_plain text plain (omega arith), user_chat_line)
      (rw (dispatch_text g text w sends short, run_line) refl)

sends-send_plain :
    (g : Setting) (text : List ℕ) (w : World)
    → g.os.sends ≡ true
    → (chat_of (send_plain g text w)).sends ≡ (chat_of w).sends ++ ((Code.msg, text) ∷ [])
unfolding msg_send after_send
sends-send_plain g text w sends =
    let framed : Chat = record (chat_of w) {
      sends = (chat_of w).sends ++ ((Code.msg, text) ∷ []);
    } in
    let spoken : (msg_send g.os Code.msg text (chat_of w)).1
        ≡ lmp_history_append g.os (chat_of w).my_nick text framed =
      rw (sends, msg_send) refl in
    ap (λ c. c.sends) (spoken ∙ lmp_history_append-same g.os (chat_of w).my_nick text framed)

-- The server passes it on.
handle_message_text :
    (env : Env) (fd j : ℕ) (text behind : List ℕ) (s : Server) (m : GroupMember)
    → get_elem? s.group.members j ≡ some m
    → is_player s (cstr m.uid) ≡ false
    → has_nul m.uid ≡ true
    → j < max_group_members
    → IsString text
    → (t : Server) × (handle_message env fd j Code.msg (text ++ (0 ∷ behind)) (length text) s
        ≡ some t)
      × (t.sends ≡ s.sends ++ frames Code.msg j text (others env.listener fd s.pfds))
unfolding handle_message handle_member handle_msg handle_other send_to_others
handle_message_text env fd j text behind s m there idle ended small clean =
    let t : Server = record s {
      history = (save_message_to_history env.history_appends (cstr m.uid) text s.history).1;
    } in
    let low : j % 256 ≡ j = omega arith in
    (
      handle_other env fd j Code.msg text t,
      rw
          (
            cstr_end text behind clean,
            take-append_exact text (0 ∷ behind),
            there,
            legible_idle text m s idle ended,
            idle,
          )
          refl,
      ap (λ q. s.sends ++ frames Code.msg q text (others env.listener fd s.pfds)) low,
    )

-- The receiver of another client shows it.
group_receiver_text :
    (g : Setting) (sender j len : ℕ) (text behind : List ℕ) (w : World) (m : GroupMember)
    → get_elem? w.client.user_group.members j ≡ some m
    → IsString text
    → group_receiver g sender (message (message_of len j text behind) ∷ []) w
      ≡ done (
          print_prompt (
            with_chat
              (printed clear_line (named m w))
              (msg_recv g.os text (chat_of (printed clear_line (named m w)))).1))
unfolding group_receiver amend
group_receiver_text g sender j len text behind w m there clean =
    rw (there, amend)
      (ap (λ r. r >>= λ v. done v) (receive_message_text g text behind len j (named m w) clean))

prints-append_to :
    (os : Os) (path text : List ℕ) (c : Chat)
    → (append_to os path text c).process.prints ≡ c.process.prints
unfolding append_to append_file
prints-append_to os [] text c = refl
prints-append_to os (b ∷ path) text c = ground arith

-- What a client prints for a text of a member.
abbrev pub shown_for : GroupMember → List ℕ → List ℕ
shown_for m text = b'[' ∷ (cstr m.nickname ++ (codes "]: " ++ (text ++ codes "\n")))

abbrev pub prompt_of : World → List ℕ
prompt_of w = clear_line ++ (b'[' ∷ ((chat_of w).my_nick ++ codes "]: "))

prints-received :
    (g : Setting) (text : List ℕ) (m : GroupMember) (w : World)
    → let start = printed clear_line (named m w) in
      (chat_of
        (print_prompt (with_chat start (msg_recv g.os text (chat_of start)).1))).process.prints
      ≡ (chat_of w).process.prints ++ (clear_line ∷ shown_for m text ∷ prompt_of w ∷ [])
unfolding print_prompt msg_recv lmp_history_append
prints-received g text m w =
    let start = chat_of (printed clear_line (named m w)) in
    let spoken = print (shown_for m text) start in
    let line = history_line (cstr m.nickname) text in
    let after = append_to g.os spoken.history_path line spoken in
    let own : after.my_nick ≡ (chat_of w).my_nick =
      ap (λ c. c.my_nick) (lmp_history_append-same g.os (cstr m.nickname) text spoken) in
    let old = (chat_of w).process.prints in
    ap (λ n. after.process.prints ++ ((clear_line ++ (b'[' ∷ (n ++ codes "]: "))) ∷ [])) own
    ∙ ap (λ q. q ++ (prompt_of w ∷ [])) (prints-append_to g.os spoken.history_path line spoken)
    ∙ append_assoc (old ++ (clear_line ∷ [])) (shown_for m text ∷ []) (prompt_of w ∷ [])
    ∙ append_assoc old (clear_line ∷ []) (shown_for m text ∷ prompt_of w ∷ [])

-- A message in a group, end to end. If a client types a line without a slash at the start or a
-- NUL, of fewer than 252 bytes, its chat loop sends this text as one message. If the server has
-- the client as the member at an index below ten, and the client is in no game and its uid ends in
-- its array, the server handles the message with a result and sends, behind all that it has sent,
-- one frame for each descriptor but the listener and the sender, with the text and this index. A
-- client whose copy of the member array is that of the server, and whose receiver gets such a
-- frame, prints three texts and no more: the code that clears the line, the text behind the
-- nickname of the sender, and its own prompt. The frame is sent with success.
pub group_receiver-user_chat_line :
    (g h : Setting) (env : Env) (fd j sender : ℕ) (text behind behind' : List ℕ) (s : Server)
    (m : GroupMember) (w v : World)
    → g.os.sends ≡ true
    → IsPlain text
    → IsString text
    → length text < 252
    → get_elem? s.group.members j ≡ some m
    → j < max_group_members
    → is_player s (cstr m.uid) ≡ false
    → has_nul m.uid ≡ true
    → v.client.user_group.members ≡ s.group.members
    → (w' : World) × (user_chat_line g text w ≡ done w')
      × ((chat_of w').sends ≡ (chat_of w).sends ++ ((Code.msg, text) ∷ []))
      × (t : Server) × (handle_message env fd j Code.msg (text ++ (0 ∷ behind)) (length text) s
          ≡ some t)
      × (t.sends ≡ s.sends ++ frames Code.msg j text (others env.listener fd s.pfds))
      × (v' : World) × (group_receiver h sender
            (message (message_of (length text) j text behind') ∷ [])
            v
          ≡ done v')
      × ((chat_of v').process.prints
          ≡ (chat_of v).process.prints ++ (clear_line ∷ shown_for m text ∷ prompt_of v ∷ []))
group_receiver-user_chat_line g h env fd j sender text behind behind' s m w v sends plain clean
      short there small idle ended known =
    let (t, handled, sent) =
      handle_message_text env fd j text behind s m there idle ended small clean in
    let at = ap (λ ms. get_elem? ms j) known ∙ there in
    (
      send_plain g text w,
      user_chat_line_plain g text w sends plain short,
      sends-send_plain g text w sends,
      t,
      handled,
      sent,
      _,
      group_receiver_text h sender j (length text) text behind' v m at clean,
      prints-received h text m v,
    )
