-- ===== src/Program/Heard.antt =====
-- What one side of a chat keeps of what it says and hears.
use socket_speak.Base.{
  ℕ, ◌≡◌, refl, sym, ap, subst, ◌∙◌, List, [], ◌∷◌, ◌++◌, map, Bool, true, false, cstr, cstr_end,
  IsString, codes, arith,
}
use mathlib.Core.List.{append-nil, append_assoc, map-append}
use socket_speak.Process.{done}
use socket_speak.Lmp.Registry.{command_success, dispatch_recv}
use socket_speak.Lmp.Code
use socket_speak.Lmp.Frame.{Message}
use socket_speak.Lmp.Lines.{IsPlain}
use socket_speak.Lmp.Commands.{dispatch_recv-msg}
use socket_speak.Chat.History.{Chat, print, lmp_history_append}
use socket_speak.Chat.Handlers.{after_send, msg_send, msg_recv}
use socket_speak.Chat.Transcript.{Said, Keeps, append-Keeps, lmp_history_append-same}
use socket_speak.Program.World.{Setting, World, chat_of, with_chat, handlers, command_table}
use socket_speak.Program.Loop.{
  clear_line, printed, print_prompt, warn, receive_message, send_plain, chat_line,
}

-- A text with who said it: `true` is the user, `false` the peer.
abbrev pub Turn : Type 0
Turn = Bool × List ℕ

abbrev pub said_by : Bool → List ℕ → Turn → List (List ℕ)
said_by true text (true, _) = text ∷ []
said_by true text (false, _) = []
said_by false text (true, _) = []
said_by false text (false, _) = text ∷ []

abbrev pub mine : List Turn → List (List ℕ)
mine [] = []
mine ((true, text) ∷ turns) = text ∷ mine turns
mine ((false, text) ∷ turns) = mine turns

abbrev pub theirs : List Turn → List (List ℕ)
theirs [] = []
theirs ((true, text) ∷ turns) = theirs turns
theirs ((false, text) ∷ turns) = text ∷ theirs turns

abbrev pub line_by : List ℕ → List ℕ → Turn → Said
line_by me them (true, text) = (me, text)
line_by me them (false, text) = (them, text)

abbrev pub frame_of : List ℕ → ℕ × List ℕ
frame_of text = (Code.msg, text)

-- The history file holds the turns, and the user's own were sent behind `before`.
pub record Logs (path me them : List ℕ) (before : List (ℕ × List ℕ)) (turns : List Turn) (w : World)
    : Type 0 where
  pub kept : Keeps path (map (line_by me them) turns) (chat_of w)
  pub sent : (chat_of w).sends ≡ before ++ map frame_of (mine turns)
  pub my_name : (chat_of w).my_nick ≡ me
  pub peer_name : (chat_of w).peer_nick ≡ them

pub mine-append : (xs ys : List Turn) → mine (xs ++ ys) ≡ mine xs ++ mine ys
mine-append [] ys = refl
mine-append ((true, text) ∷ xs) ys = ap (λ r. text ∷ r) (mine-append xs ys)
mine-append ((false, text) ∷ xs) ys = mine-append xs ys

pub theirs-append : (xs ys : List Turn) → theirs (xs ++ ys) ≡ theirs xs ++ theirs ys
theirs-append [] ys = refl
theirs-append ((true, text) ∷ xs) ys = theirs-append xs ys
theirs-append ((false, text) ∷ xs) ys = ap (λ r. text ∷ r) (theirs-append xs ys)

chat_line_plain :
    (g : Setting) (text : List ℕ) (w : World)
    → IsPlain text
    → chat_line g text w ≡ done (send_plain g text w)
unfolding chat_line
chat_line_plain g [] w plain = refl
chat_line_plain g (b ∷ bs) w plain = ground arith

dispatch_msg :
    (g : Setting) (buf : List ℕ) (len : ℕ) (w : World)
    → dispatch_recv (command_table g) Code.msg buf len (done w)
      ≡ (command_success, done (with_chat w (msg_recv g.os (cstr buf) (chat_of w)).1))
unfolding command_table handlers msg_recv
dispatch_msg g buf len w = dispatch_recv-msg (handlers g) buf len (done w)

abbrev pub message_of : ℕ → ℕ → List ℕ → List ℕ → Message
message_of len sender text behind = record {
  type = Code.msg;
  sender = sender;
  len = len;
  buf = text ++ (0 ∷ behind);
}

-- A text that is received goes to `msg_recv`, between a cleared line and a prompt.
pub receive_message_text :
    (g : Setting) (text behind : List ℕ) (len sender : ℕ) (w : World)
    → IsString text
    → receive_message g (message_of len sender text behind) w
      ≡ done (
          print_prompt (
            with_chat
              (printed clear_line w)
              (msg_recv g.os text (chat_of (printed clear_line w))).1))
unfolding receive_message warn
receive_message_text g text behind len sender w clean =
    let start = printed clear_line w in
    rw (dispatch_msg g (text ++ (0 ∷ behind)) len start, receive_message)
      (ap (λ t. done (print_prompt (with_chat start (msg_recv g.os t (chat_of start)).1)))
        (cstr_end text behind clean))

module _ (g : Setting) (b : ℕ) (name me them : List ℕ) (before : List (ℕ × List ℕ))
    (opens : g.os.opens (b ∷ name) ≡ true) (sends : g.os.sends ≡ true) where
  abbrev path : List ℕ
  path = b ∷ name

  spoken-Logs :
      (turns : List Turn) (t : Turn) (speaker : List ℕ) (w : World) (c : Chat)
      → Keeps path (map (line_by me them) turns) c
      → c.sends ≡ before ++ map frame_of (mine (turns ++ (t ∷ [])))
      → c.my_nick ≡ me
      → c.peer_nick ≡ them
      → (speaker, t.1) ≡ line_by me them t
      → Logs path me them before
          (turns ++ (t ∷ []))
          (with_chat w (lmp_history_append g.os speaker t.1 c))
  spoken-Logs turns t speaker w c kept sent my_name peer_name by =
      let said : Said = (speaker, t.1) in
      let same = lmp_history_append-same g.os speaker t.1 c in
      record {
        kept =
            subst (λ ms. Keeps path ms (lmp_history_append g.os speaker t.1 c))
              (ap (λ l. map (line_by me them) turns ++ (l ∷ [])) by
                ∙ sym (map-append (line_by me them) turns (t ∷ [])))
              (append-Keeps g.os b name (map (line_by me them) turns) said c opens kept).0;
        sent = ap (λ d. d.sends) same ∙ sent;
        my_name = ap (λ d. d.my_nick) same ∙ my_name;
        peer_name = ap (λ d. d.peer_nick) same ∙ peer_name;
      }

  pub chat_line-Logs :
      (turns : List Turn) (text : List ℕ) (w : World)
      → Logs path me them before turns w
      → IsPlain text
      → (v : World) × (chat_line g text (print_prompt w) ≡ done v)
        × Logs path me them before (turns ++ ((true, text) ∷ [])) v
  unfolding print_prompt msg_send after_send
  chat_line-Logs turns text w h plain =
      let c = chat_of (print_prompt w) in
      let framed : Chat = record c { sends = c.sends ++ ((Code.msg, text) ∷ []) } in
      let spoken : (msg_send g.os Code.msg text c).1
          ≡ lmp_history_append g.os c.my_nick text framed =
        rw (sends, msg_send) refl in
      let more : c.sends ++ ((Code.msg, text) ∷ [])
          ≡ before ++ map frame_of (mine (turns ++ ((true, text) ∷ []))) =
        ap (λ q. q ++ ((Code.msg, text) ∷ [])) h.sent
        ∙ append_assoc before (map frame_of (mine turns)) ((Code.msg, text) ∷ [])
        ∙ ap (λ q. before ++ q)
            (sym (map-append frame_of (mine turns) (text ∷ []))
              ∙ ap (map frame_of) (sym (mine-append turns ((true, text) ∷ [])))) in
      (
        with_chat (print_prompt w) (lmp_history_append g.os c.my_nick text framed),
        chat_line_plain g text (print_prompt w) plain
            ∙ ap (λ d. done (with_chat (print_prompt w) d)) spoken,
        spoken-Logs turns (true, text) c.my_nick (print_prompt w) framed h.kept more h.my_name
            h.peer_name (ap (λ n. (n, text)) h.my_name),
      )

  pub receive_message-Logs :
      (turns : List Turn) (text behind : List ℕ) (len sender : ℕ) (w : World)
      → Logs path me them before turns w
      → IsString text
      → (v : World) × (receive_message g (message_of len sender text behind) w ≡ done v)
        × Logs path me them before (turns ++ ((false, text) ∷ [])) v
  unfolding print_prompt msg_recv
  receive_message-Logs turns text behind len sender w h clean =
      let start = printed clear_line w in
      let c = chat_of start in
      let shown = print (b'[' ∷ (c.peer_nick ++ (codes "]: " ++ (text ++ codes "\n")))) c in
      let after = with_chat start (lmp_history_append g.os c.peer_nick text shown) in
      let same : mine turns ≡ mine (turns ++ ((false, text) ∷ [])) =
        sym (mine-append turns ((false, text) ∷ []) ∙ append-nil (mine turns)) in
      let logged =
        spoken-Logs turns (false, text) c.peer_nick start shown h.kept
          (h.sent ∙ ap (λ q. before ++ map frame_of q) same) h.my_name h.peer_name
          (ap (λ n. (n, text)) h.peer_name) in
      (
        print_prompt after,
        receive_message_text g text behind len sender w clean,
        record {
          kept = logged.kept;
          sent = logged.sent;
          my_name = logged.my_name;
          peer_name = logged.peer_name;
        },
      )
