-- ===== src/Server/Archive.antt =====
-- The history of a group, from `save_message_to_history` to the frames of a load.
use mathlib.Core.List.{append-nil, append_assoc}
use socket_speak.Base.{
  ℕ, ◌<◌, ◌≡◌, refl, sym, ap, ◌∙◌, List, [], ◌∷◌, ◌++◌, map, true, length, length-append, codes,
  cstr, cstr_self, IsString, IsLine, All, All-append, fgets_lines, fgets_lines-line,
  fgets_lines_nil, arith,
}
use socket_speak.Lmp.Code
use socket_speak.Server.State.{Server, Send}
use socket_speak.Server.Users.{uid_length}
use socket_speak.Server.History.{save_message_to_history, history_lines}
use socket_speak.Server.Handler.Frames.{Env, send_to}
use socket_speak.Server.Handler.Dispatch.{handle_load}

-- A uid and a message.
abbrev pub Stored : Type 0
Stored = List ℕ × List ℕ

-- A uid of eight bytes and a message of at most 1014, both without newlines and NULs.
abbrev pub IsStored : Stored → Type 0
IsStored (uid, message) =
    (length uid ≡ uid_length)
    × IsLine uid
    × IsString uid
    × IsLine message
    × IsString message
    × (length message < 1015)

abbrev pub entry_of : Stored → List ℕ
entry_of (uid, message) = uid ++ (message ++ codes "\n")

abbrev pub archive : List Stored → List ℕ
archive [] = []
archive (m ∷ ms) = entry_of m ++ archive ms

-- Saving the messages one after the other, the file being open.
unfoldable pub save_all : List Stored → List ℕ → List ℕ
save_all [] history = history
save_all ((uid, message) ∷ ms) history =
    save_all ms (save_message_to_history true uid message history).1

save_message-eq :
    (m : Stored) (history : List ℕ)
    → IsStored m
    → (save_message_to_history true m.0 m.1 history).1 ≡ history ++ entry_of m
unfolding save_message_to_history
save_message-eq (uid, message) history (eight, _, _, _, _, short) = ground (arith, eight)

pub save_all-archive :
    (ms : List Stored) (history : List ℕ)
    → All IsStored ms
    → save_all ms history ≡ history ++ archive ms
unfolding save_all
save_all-archive [] history h = sym (append-nil history)
save_all-archive ((uid, message) ∷ ms) history (h, hs) =
    let m : Stored = (uid, message) in
    ap (save_all ms) (save_message-eq m history h)
    ∙ save_all-archive ms (history ++ entry_of m) hs
    ∙ append_assoc history (entry_of m) (archive ms)

entry-text : (m : Stored) → entry_of m ≡ (m.0 ++ m.1) ++ codes "\n"
entry-text (uid, message) = sym (append_assoc uid message (codes "\n"))

history_lines-archive :
    (ms : List Stored) → All IsStored ms → history_lines (archive ms) ≡ map entry_of ms
unfolding history_lines
history_lines-archive [] h = fgets_lines_nil 1024
history_lines-archive ((uid, message) ∷ ms) ((eight, l, s, l', s', short), hs) =
    let m : Stored = (uid, message) in
    let whole = entry-text m in
    ap (fgets_lines 1024)
      (ap (λ t. t ++ archive ms) whole ∙ append_assoc (uid ++ message) (codes "\n") (archive ms))
    ∙ fgets_lines-line 1024 (uid ++ message) (archive ms) (All-append _ uid message l l')
        (omega (arith, length-append uid message))
    ∙ ap (λ t. t ∷ fgets_lines 1024 (archive ms)) (sym whole)
    ∙ ap (λ t. entry_of m ∷ t) (history_lines-archive ms hs)

cstr-entry : (m : Stored) → IsStored m → cstr (entry_of m) ≡ entry_of m
cstr-entry (uid, message) (eight, l, s, l', s', short) = cstr_self (entry_of (uid, message)) (
    All-append _ uid (message ++ codes "\n") s (All-append _ message (codes "\n") s' (omega arith)))

-- The frame of one message.
abbrev pub loading_frame : ℕ → List ℕ → Send
loading_frame fd text = record { fd = fd; type = Code.grp_loading_msg; sender = 0; payload = text }

frames_of :
    (fd : ℕ) (ms : List Stored)
    → All IsStored ms
    → map (λ line. loading_frame fd (cstr line)) (map entry_of ms)
      ≡ map (λ m. loading_frame fd (entry_of m)) ms
frames_of fd [] h = refl
frames_of fd (m ∷ ms) (h, hs) =
    ap (λ t. loading_frame fd t ∷ map (λ line. loading_frame fd (cstr line)) (map entry_of ms))
      (cstr-entry m h)
    ∙ ap (λ r. loading_frame fd (entry_of m) ∷ r) (frames_of fd ms hs)

-- If the history file holds what save_message_to_history wrote for a list of messages, starting
-- from an empty file, then a load sends these messages, one frame each, in their order and
-- unchanged, and then the frame that ends the load. The uids have eight bytes, the messages at
-- most 1014, none with a newline or a NUL, and the file can be read.
pub handle_load-save_all :
    (env : Env) (fd : ℕ) (ms : List Stored) (s : Server)
    → All IsStored ms
    → env.history_reads ≡ true
    → s.history ≡ save_all ms []
    → (handle_load env fd s).sends
      ≡ (s.sends ++ map (λ m. loading_frame fd (entry_of m)) ms)
        ++ (record { fd = fd; type = Code.grp_load_msg; sender = 0; payload = [] } ∷ [])
unfolding handle_load send_to
handle_load-save_all env fd ms s h reads kept =
    let end : List Send =
      record { fd = fd; type = Code.grp_load_msg; sender = 0; payload = [] } ∷ [] in
    let frame : List ℕ → Send = λ line. loading_frame fd (cstr line) in
    let lines : history_lines s.history ≡ map entry_of ms =
      ap history_lines (kept ∙ save_all-archive ms [] h) ∙ history_lines-archive ms h in
    rw reads (ap (λ fs. (s.sends ++ fs) ++ end) (ap (map frame) lines ∙ frames_of fd ms h))
