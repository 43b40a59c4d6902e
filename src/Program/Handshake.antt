-- ===== src/Program/Handshake.antt =====
-- The start of a chat: each side sends its uid, and the other takes it (`chat_loop`, `uid_recv`).
use mathlib.Core.List.{append-nil}
use socket_speak.Base.{
  take-append_exact, ℕ, ◌<◌, ◌≡◌, refl, sym, ap, ◌∙◌, inl, inr, List, [], ◌∷◌, ◌++◌, true, false,
  none, length, IsString, codes, cstr, cstr_self, take, Bool-cases, arith,
}
use socket_speak.Process.{Os, Process, done, lookup, write, ◌>>=◌}
use socket_speak.Directory.{read_user_file, write_user_file}
use socket_speak.Directory.Paths.{IsIn, path_in_user_directory-IsIn, mkdir}
use socket_speak.Uid.{
  uid_string_valid, stored_uid, uid_int_to_hex, generate_uid, made_valid, uid_string_valid_text,
}
use socket_speak.Lmp.Code
use socket_speak.Lmp.Commands.{dispatch_recv-uid}
use socket_speak.Lmp.Registry.{command_success, dispatch_recv}
use socket_speak.Program.World.{
  Setting, World, chat_of, with_chat, settled, handlers, command_table,
}
use socket_speak.Program.Loop.{clear_line, printed, print_prompt, warn, receive_message}
use socket_speak.Chat.Kept.{peer_dir_of}
use socket_speak.Chat.Handshake.{received_uid, uid_recv-commands}
use socket_speak.Chat.History.{Chat}
use socket_speak.Chat.Nick.{peer_file, load_my_nick}
use socket_speak.Chat.Handlers.{after_send, uid_recv, lmp_send_uid}
use socket_speak.Program.Start.{uid_file, current_uid, chat_loop_start}

-- `get_uid` in the user's directory comes to an end with a valid uid.
current_uid-valid :
    (os : Os) (b : ℕ) (dir : List ℕ) (r : ℕ) (p : Process)
    → IsIn (b ∷ dir) p
    → length ((b ∷ dir) ++ uid_file) < 512
    → os.opens ((b ∷ dir) ++ uid_file) ≡ true
    → (uid : List ℕ) × (q : Process) × (current_uid os r p ≡ done (uid, q))
      × (uid_string_valid uid ≡ true)
      × IsIn (b ∷ dir) q
unfolding current_uid read_user_file write_user_file
current_uid-valid os b dir r p h short opens =
    let path = (b ∷ dir) ++ uid_file in
    let stored = stored_uid (lookup path p.files) in
    let made = uid_int_to_hex (generate_uid r) in
    let at = path_in_user_directory-IsIn os b dir uid_file p h short in
    elim (Bool-cases (uid_string_valid stored)) [
      | inl valid ↦ (stored, p, rw (at, valid) refl, valid, h)
      | inr invalid ↦ (
        made,
        record p { files = write path made p.files },
        rw (at, invalid, at, opens) refl,
        made_valid (generate_uid r),
        record { here = h.here; made = h.made },
      )
    ]

-- The LMPContext at the start.
abbrev begun : List ℕ → List ℕ → Process → Chat
begun nick uid p = record {
  peer_nick = codes "Peer";
  my_nick = nick;
  my_uid = uid;
  peer_uid = [];
  peer_uid_ready = false;
  peer_dir = [];
  history_path = [];
  history_loaded = false;
  user_group_mode = false;
  sends = [];
  process = p;
}

lmp_send_uid-begun :
    (os : Os) (nick uid : List ℕ) (p : Process)
    → os.sends ≡ true
    → length uid ≡ 8
    → (lmp_send_uid os (begun nick uid p)).1
      ≡ record (begun nick uid p) { sends = (Code.uid, uid) ∷ [] }
unfolding lmp_send_uid after_send
lmp_send_uid-begun os nick [] p sends size = absurd (omega arith)
lmp_send_uid-begun os nick (u ∷ uid) p sends size = rw (sends, lmp_send_uid) refl

chat_loop_start-begun :
    (os : Os) (r : ℕ) (nick uid : List ℕ) (p q : Process)
    → load_my_nick os p ≡ done (nick, p)
    → current_uid os r p ≡ done (uid, q)
    → chat_loop_start os r p ≡ done (lmp_send_uid os (begun nick (take 8 uid) q)).1
unfolding chat_loop_start
chat_loop_start-begun os r nick uid p q named start =
    rw named
      (ap (λ m. m >>= λ (uid, s). done (lmp_send_uid os (begun nick (take 8 uid) s)).1) start)

-- `chat_loop` begins, and sends its uid.
chat_loop_start-uid :
    (os : Os) (b : ℕ) (dir nick : List ℕ) (r : ℕ) (p : Process)
    → IsIn (b ∷ dir) p
    → length ((b ∷ dir) ++ uid_file) < 512
    → os.opens ((b ∷ dir) ++ uid_file) ≡ true
    → os.sends ≡ true
    → load_my_nick os p ≡ done (nick, p)
    → (c : Chat) × (chat_loop_start os r p ≡ done c)
      × (uid_string_valid c.my_uid ≡ true)
      × (c.sends ≡ (Code.uid, c.my_uid) ∷ [])
chat_loop_start-uid os b dir nick r p h short opens sends named =
    let (uid, q, start, valid, inside) = current_uid-valid os b dir r p h short opens in
    let (size, clean) = uid_string_valid_text uid valid in
    let whole : take 8 uid ≡ uid =
      ap (λ n. take n uid) (sym size)
      ∙ ap (take (length uid)) (sym (append-nil uid))
      ∙ take-append_exact uid [] in
    (
      record (begun nick uid q) { sends = (Code.uid, uid) ∷ [] },
      chat_loop_start-begun os r nick uid p q named start
          ∙ ap (λ t. done (lmp_send_uid os (begun nick t q)).1) whole
          ∙ ap done (lmp_send_uid-begun os nick uid q sends size),
      valid,
      refl,
    )

-- A frame with a uid goes to `uid_recv`.
dispatch_uid :
    (g : Setting) (buf : List ℕ) (len : ℕ) (w : World) (c : Chat)
    → uid_recv g.os buf len (chat_of w) ≡ done (command_success, c)
    → dispatch_recv (command_table g) Code.uid buf len (done w)
      ≡ (command_success, done (with_chat w c))
unfolding command_table handlers
dispatch_uid g buf len w c e =
    dispatch_recv-uid (handlers g) buf len (done w)
    ∙ ap (λ m. settled (m >>= λ (r, d). done (r, with_chat w d))) e

received_uid-sent :
    (uid behind : List ℕ)
    → length uid ≡ 8
    → IsString uid
    → received_uid (uid ++ (0 ∷ behind)) 8 ≡ uid
received_uid-sent uid behind size clean =
    ap (λ n. cstr (take n (uid ++ (0 ∷ behind)))) (sym size)
    ∙ ap cstr (take-append_exact uid (0 ∷ behind))
    ∙ cstr_self uid clean

-- What the receiver makes of a uid.
module _ (g : Setting) (c : ℕ) (cs behind : List ℕ) (w : World)
    (inside : IsIn (c ∷ cs) (chat_of w).process)
    (runs : (path : List ℕ) → g.os.runs (mkdir path) ≡ true) (long : length (c ∷ cs) < 200)
    (absent : (uid : List ℕ)
      → lookup ((c ∷ cs) ++ peer_file uid) (chat_of w).process.files ≡ none) where
  receive_message-uid :
      (uid : List ℕ)
      → length uid ≡ 8
      → IsString uid
      → (v : World) × (receive_message g
            (record { type = Code.uid; sender = 0; len = 8; buf = uid ++ (0 ∷ behind) })
            w
          ≡ done v)
        × ((chat_of v).peer_uid ≡ uid)
        × ((chat_of v).peer_uid_ready ≡ true)
        × ((chat_of v).history_path ≡ peer_dir_of (c ∷ cs) uid ++ codes "history.txt")
  unfolding receive_message warn print_prompt
  receive_message-uid [] size clean = absurd (omega arith)
  receive_message-uid (u ∷ us) size clean =
      let cleared = printed clear_line w in
      let buf = (u ∷ us) ++ (0 ∷ behind) in
      let (d, taken, uid, path, _, ready, _) =
        uid_recv-commands g.os c cs u us buf 8 (chat_of cleared)
          (record { here = inside.here; made = inside.made })
          (received_uid-sent (u ∷ us) behind size clean) runs long (absent (u ∷ us)) in
      (
        print_prompt (with_chat cleared d),
        rw (dispatch_uid g buf 8 cleared d taken, receive_message) refl,
        uid,
        ready,
        path,
      )

-- The start of chat_loop comes to its end with a uid of eight hexadecimal digits, sent as the
-- first and only frame, and the receiver of the peer that gets this frame stores exactly this uid,
-- sets the flag for which its chat_loop waits, and keeps the history in the directory of that uid.
-- The directories of both users are made, the path of uid.txt is shorter than 512 bytes and it
-- opens, the frame is sent, the nickname loads; at the peer mkdir succeeds, its directory is
-- shorter than 200 bytes, and no nickname is kept for any peer.
pub receive_message-chat_loop_start :
    (os : Os) (b : ℕ) (dir nick : List ℕ) (r : ℕ) (p : Process)
    → (g : Setting) (c : ℕ) (cs behind : List ℕ) (w : World) → IsIn (b ∷ dir) p
    → length ((b ∷ dir) ++ uid_file) < 512
    → os.opens ((b ∷ dir) ++ uid_file) ≡ true
    → os.sends ≡ true
    → load_my_nick os p ≡ done (nick, p)
    → IsIn (c ∷ cs) (chat_of w).process
    → ((path : List ℕ) → g.os.runs (mkdir path) ≡ true)
    → length (c ∷ cs) < 200
    → ((uid : List ℕ) → lookup ((c ∷ cs) ++ peer_file uid) (chat_of w).process.files ≡ none)
    → (d : Chat) × (chat_loop_start os r p ≡ done d)
      × (uid_string_valid d.my_uid ≡ true)
      × (d.sends ≡ (Code.uid, d.my_uid) ∷ [])
      × (v : World) × (receive_message g
            (record { type = Code.uid; sender = 0; len = 8; buf = d.my_uid ++ (0 ∷ behind) })
            w
          ≡ done v)
      × ((chat_of v).peer_uid ≡ d.my_uid)
      × ((chat_of v).peer_uid_ready ≡ true)
      × ((chat_of v).history_path ≡ peer_dir_of (c ∷ cs) d.my_uid ++ codes "history.txt")
receive_message-chat_loop_start os b dir nick r p g c cs behind w h short opens sends named inside
      runs long absent =
    let (d, start, valid, sent) = chat_loop_start-uid os b dir nick r p h short opens sends named in
    let (size, clean) = uid_string_valid_text d.my_uid valid in
    let (v, received, uid, ready, path) =
      receive_message-uid g c cs behind w inside runs long absent d.my_uid size clean in
    (d, start, valid, sent, v, received, uid, ready, path)
