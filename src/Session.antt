-- ===== src/Session.antt =====
-- A load of the history from the server's file to the client's screen (group_server.c,
-- group_server_comms.c, group_commands.c).
use mathlib.Core.List.{append_assoc}
use socket_speak.Base.{
  ℕ, ◌≡◌, refl, sym, ap, ◌∙◌, List, [], ◌∷◌, ◌++◌, map, true, ◌==◌, if◌then◌else◌, length, take,
  drop, take-append_exact, drop-append_exact, codes, cstr, cstr_self, cstr_end, All, All-append,
  str_eq, arith,
}
use socket_speak.Lmp.Code
use socket_speak.Server.State.{Server, Send}
use socket_speak.Server.Handler.Frames.{Env}
use socket_speak.Server.Handler.Dispatch.{handle_load}
use socket_speak.Server.Archive.{
  Stored, IsStored, entry_of, save_all, loading_frame, handle_load-save_all,
}
use socket_speak.Client.Member.{
  Client, state_idle, loading_history, history_text, nickname_of, members_of,
  user_grp_load_msg_send, user_grp_load_msg_recv, user_grp_loading_msg_recv,
}
use socket_speak.Client.Loading.{load_messages, history_texts, load-session}

-- The buffer of a client that received a payload; `behind` is what it holds behind the NUL.
abbrev pub buffer_of : (List ℕ → List ℕ) → List ℕ → List ℕ
buffer_of behind payload = payload ++ (0 ∷ behind payload)

-- The handler that a frame of a load goes to.
unfoldable pub receive : (List ℕ → List ℕ) → Send → Client → Client
receive behind f c =
    if f.type == Code.grp_loading_msg
    then (user_grp_loading_msg_recv f.type (buffer_of behind f.payload) (length f.payload) c).1
    else if f.type == Code.grp_load_msg
    then (user_grp_load_msg_recv f.type (buffer_of behind f.payload) (length f.payload) c).1
    else c

unfoldable pub receive_all : (List ℕ → List ℕ) → List Send → Client → Client
receive_all behind [] c = c
receive_all behind (f ∷ fs) c = receive_all behind fs (receive behind f c)

-- What is shown for a message: who said it, and its text.
abbrev pub shown : Client → Stored → List ℕ
shown c (uid, message) =
    let nickname =
      if str_eq (cstr c.user_member_info.uid) uid
      then codes "You"
      else nickname_of (members_of c.user_group) uid in
    b'[' ∷ (nickname ++ (codes "]: " ++ (message ++ codes "\n")))

history_text-entry :
    (m : Stored) (rest : List ℕ) (c : Client)
    → IsStored m
    → history_text c.user_member_info c.user_group (entry_of m ++ (0 ∷ rest)) ≡ shown c m
unfolding history_text
history_text-entry (uid, message) rest c (eight, _, clean, _, clean', _) =
    let line = message ++ codes "\n" in
    let split : (uid ++ line) ++ (0 ∷ rest) ≡ uid ++ (line ++ (0 ∷ rest)) =
      append_assoc uid line (0 ∷ rest) in
    let first : cstr (take 8 ((uid ++ line) ++ (0 ∷ rest))) ≡ uid =
      ap (λ t. cstr (take 8 t)) split
      ∙ ap (λ n. cstr (take n (uid ++ (line ++ (0 ∷ rest))))) (sym eight)
      ∙ ap cstr (take-append_exact uid (line ++ (0 ∷ rest)))
      ∙ cstr_self uid clean in
    let second : cstr (drop 8 ((uid ++ line) ++ (0 ∷ rest))) ≡ line =
      ap (λ t. cstr (drop 8 t)) split
      ∙ ap (λ n. cstr (drop n (uid ++ (line ++ (0 ∷ rest))))) (sym eight)
      ∙ ap cstr (drop-append_exact uid (line ++ (0 ∷ rest)))
      ∙ cstr_end line rest (All-append _ message (codes "\n") clean' (omega arith)) in
    ap
      (λ u.
        b'['
        ∷ ((if str_eq (cstr c.user_member_info.uid) u
              then codes "You"
              else nickname_of (members_of c.user_group) u)
            ++ (codes "]: " ++ cstr (drop 8 ((uid ++ line) ++ (0 ∷ rest))))))
      first
    ∙ ap
        (λ t.
          b'['
          ∷ ((if str_eq (cstr c.user_member_info.uid) uid
                then codes "You"
                else nickname_of (members_of c.user_group) uid)
              ++ (codes "]: " ++ t)))
        second

abbrev buffers : (List ℕ → List ℕ) → List Stored → List (List ℕ)
buffers behind ms = map (λ m. buffer_of behind (entry_of m)) ms

history_texts-buffers :
    (behind : List ℕ → List ℕ) (ms : List Stored) (c : Client)
    → All IsStored ms
    → history_texts c (buffers behind ms) ≡ map (shown c) ms
history_texts-buffers behind [] c h = refl
history_texts-buffers behind (m ∷ ms) c (h, hs) =
    ap (λ t. t ∷ history_texts c (buffers behind ms))
      (history_text-entry m (behind (entry_of m)) c h)
    ∙ ap (λ ts. shown c m ∷ ts) (history_texts-buffers behind ms c hs)

abbrev end_frame : ℕ → Send
end_frame fd = record { fd = fd; type = Code.grp_load_msg; sender = 0; payload = [] }

receive_all-load :
    (behind : List ℕ → List ℕ) (fd len : ℕ) (ms : List Stored) (c : Client)
    → receive_all behind (map (λ m. loading_frame fd (entry_of m)) ms ++ (end_frame fd ∷ [])) c
      ≡ (user_grp_load_msg_recv Code.grp_load_msg [] len
          (load_messages (buffers behind ms) len c)).1
unfolding receive_all receive load_messages user_grp_load_msg_recv user_grp_loading_msg_recv
receive_all-load behind fd len [] c = refl
receive_all-load behind fd len (m ∷ ms) c =
    receive_all-load behind fd len ms
      (user_grp_loading_msg_recv Code.grp_loading_msg (buffer_of behind (entry_of m)) len c).1

-- If the history file of the server holds what save_message_to_history wrote for a list of
-- messages, starting from an empty file, then an idle client that asks for a load and receives the
-- frames that handle_load sends shows these messages in their order, each behind the name of the
-- member with its uid, You for its own and Unknown for none, and is idle again; nothing else of
-- the client changes. The uids have eight bytes, the messages at most 1014, none with a newline or
-- a NUL, the connection is up and the file can be read.
pub receive_all-handle_load :
    (env : Env) (fd : ℕ) (ms : List Stored) (s : Server) (behind : List ℕ → List ℕ) (c : Client)
    → All IsStored ms
    → env.history_reads ≡ true
    → s.history ≡ save_all ms []
    → c.loading_message_state ≡ state_idle
    → receive_all behind
        (drop (length s.sends) (handle_load env fd s).sends)
        (user_grp_load_msg_send true Code.grp_load_msg [] c).1
      ≡ record c {
        prints = c.prints ++ (loading_history ∷ map (shown c) ms);
        sends = c.sends ++ ((Code.grp_load_msg, []) ∷ []);
      }
receive_all-handle_load env fd ms s behind c h reads kept idle =
    let asked = (user_grp_load_msg_send true Code.grp_load_msg [] c).1 in
    let sent = map (λ m. loading_frame fd (entry_of m)) ms in
    let frames : drop (length s.sends) (handle_load env fd s).sends ≡ sent ++ (end_frame fd ∷ []) =
      ap (drop (length s.sends)) (
        handle_load-save_all env fd ms s h reads kept
        ∙ append_assoc s.sends sent (end_frame fd ∷ []))
      ∙ drop-append_exact s.sends (sent ++ (end_frame fd ∷ [])) in
    ap (λ fs. receive_all behind fs asked) frames
    ∙ receive_all-load behind fd 0 ms asked
    ∙ load-session (buffers behind ms) Code.grp_load_msg [] [] 0 c idle
    ∙ ap
        (λ ts. record c {
          prints = c.prints ++ (loading_history ∷ ts);
          sends = c.sends ++ ((Code.grp_load_msg, []) ∷ []);
        })
        (history_texts-buffers behind ms c h)
