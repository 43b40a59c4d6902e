-- ===== src/Stickers/Sending.antt =====
-- A sticker from the keyboard to the peer: `/sticker create` and `/sticker send`.
use mathlib.Core.List.{append_assoc, append-nil}
use socket_speak.Base.{
  ℕ, ◌<◌, ◌≡◌, ◌≢◌, refl, sym, ap, ◌∙◌, List, [], ◌∷◌, ◌++◌, true, none, some, length, All,
  IsString, codes, cstr_self, str_eq, str_eq_refl, lt→ltb, arith,
}
use socket_speak.Process.{Os, done, ◌>>=◌}
use socket_speak.Directory.{get_user_directory}
use socket_speak.Lmp.Registry.{command_success, skip_blanks, split_word}
use socket_speak.Lmp.Lines.{IsBare, split_word-append, split_word-bare, skip_blanks-bare}
use socket_speak.Chat.History.{Chat, append_file, lmp_history_append}
use socket_speak.Chat.Handlers.{after_send}
use socket_speak.Chat.Transcript.{lmp_history_append-same}
use socket_speak.Stickers.Table.{
  StickerEntry, max_stickers, max_sticker_len, save_sticker, sticker_text, get_sticker,
}
use socket_speak.Stickers.Editor.{escape, read_text}
use socket_speak.Stickers.Commands.{
  Stickers, note, store, create_sticker, send_text, named_command, run_command, load_once,
  sticker_send,
}

-- What a key leaves in the text: no ESC, no backspace and no NUL.
abbrev pub IsTyped : List ℕ → Type 0
IsTyped = All (λ c. (c ≢ escape) × (c ≢ 127) × (c ≢ 8) × (c ≢ 0))

IsTyped-IsString : (text : List ℕ) → IsTyped text → IsString text
IsTyped-IsString [] h = tt
IsTyped-IsString (c ∷ text) h = (h.0.3, IsTyped-IsString text h.1)

read_text-typed :
    (acc text rest : List ℕ)
    → IsTyped text
    → read_text acc (text ++ (escape ∷ rest)) ≡ (acc ++ text, rest)
unfolding read_text
read_text-typed acc [] rest h = ap (λ t. (t, rest)) (sym (append-nil acc))
read_text-typed acc (c ∷ text) rest h =
    let later = read_text-typed (acc ++ (c ∷ [])) text rest h.1 in
    let joined = append_assoc acc (c ∷ []) text in ground (arith, later, joined)

get_sticker-append :
    (es : List StickerEntry) (e : StickerEntry)
    → get_sticker es e.name ≡ none
    → get_sticker (es ++ (e ∷ [])) e.name ≡ some e.sticker
unfolding get_sticker
get_sticker-append [] e absent = rw (str_eq_refl e.name) refl
get_sticker-append (d ∷ es) e absent = ground (arith, get_sticker-append es e)

after_send_up :
    (os : Os) (code : ℕ) (text : List ℕ) (c : Chat)
    → os.sends ≡ true
    → after_send os code text (λ d. d) c
      ≡ (command_success, record c { sends = c.sends ++ ((code, text) ∷ []) })
unfolding after_send
after_send_up os code text c sends = rw (sends, after_send) refl

-- A command and what stands behind it, the stickers being loaded.
sticker_send_words :
    (os : Os) (code b : ℕ) (bs args : List ℕ) (s : Stickers)
    → s.history_loaded ≡ true
    → IsBare (b ∷ bs)
    → sticker_send os code ((b ∷ bs) ++ (b' ' ∷ args)) s ≡ run_command os code (b ∷ bs, args) s
unfolding sticker_send
sticker_send_words os code b bs args s ready bare =
    let words : split_word (skip_blanks ((b ∷ bs) ++ (b' ' ∷ args))) ≡ (b ∷ bs, args) =
      ap split_word (skip_blanks-bare b (bs ++ (b' ' ∷ args)) bare.0)
      ∙ split_word-append (b ∷ bs) args bare in
    rw (words, sticker_send) (rw (ready, load_once) refl)

second_word :
    (b : ℕ) (bs : List ℕ) → IsBare (b ∷ bs) → (split_word (skip_blanks (b ∷ bs))).0 ≡ b ∷ bs
second_word b bs bare =
    ap (λ s. (split_word s).0) (skip_blanks-bare b bs bare.0)
    ∙ ap (λ p. p.0) (split_word-bare (b ∷ bs) bare)

module _ (os : Os) (code b : ℕ) (bs text rest : List ℕ) (s : Stickers)
    (ready : s.history_loaded ≡ true) (bare : IsBare (b ∷ bs))
    (absent : get_sticker s.sticker_array (b ∷ bs) ≡ none) (typed : IsTyped text)
    (short : length text < 2047) (fit : length (b ∷ bs) < 32)
    (room : length s.sticker_array < max_stickers)
    (here : get_user_directory os s.chat.process ≡ done s.chat.process)
    (sends : os.sends ≡ true) where
  abbrev name : List ℕ
  name = b ∷ bs

  abbrev made : StickerEntry
  made = record { name = name; sticker = text }

  -- The stickers and the chat after the creation.
  abbrev created : Stickers
  created =
      let p = s.chat.process in
      note (codes "Sticker " ++ (name ++ codes " created!\n")) (record s {
        input = rest;
        sticker_array = s.sticker_array ++ (made ∷ []);
        chat = record s.chat {
          process = (append_file os p.user_directory (sticker_text made) p).1;
        };
      })

  create_sticker-created :
      s.input ≡ text ++ (escape ∷ rest) → create_sticker os name s ≡ done created
  unfolding create_sticker store save_sticker
  create_sticker-created typing =
      let reads = ap (read_text []) typing ∙ read_text-typed [] text rest typed in
      let clean = cstr_self text (IsTyped-IsString text typed) in
      rw (absent, create_sticker)
        (rw
          (
            reads,
            clean,
            lt→ltb (length text) max_sticker_len (omega arith),
            lt→ltb (length name) 32 fit,
            lt→ltb (length s.sticker_array) max_stickers room,
            here,
          )
          refl)

  sticker_send_create :
      s.input ≡ text ++ (escape ∷ rest)
      → sticker_send os code (codes "create " ++ name) s ≡ done (command_success, created)
  unfolding run_command named_command str_eq
  sticker_send_create typing =
      sticker_send_words os code b'c' (codes "reate") name s ready (omega arith)
      ∙ rw (second_word b bs bare, run_command)
          (ap (λ r. r >>= λ t. done (command_success, t)) (create_sticker-created typing))

  -- The chat after the sending.
  abbrev sent : Stickers
  sent =
      let shown = note (text ++ codes "\n") created in
      let framed = record shown.chat { sends = shown.chat.sends ++ ((code, text) ∷ []) } in
      record shown { chat = lmp_history_append os framed.my_nick (codes "\n" ++ text) framed }

  send_text-created : send_text os code text created ≡ done (command_success, sent)
  unfolding send_text
  send_text-created =
      let shown = note (text ++ codes "\n") created in
      let line = codes "\n" ++ text in
      let up = after_send_up os code text shown.chat sends in
      rw (up, send_text)
        (rw (lt→ltb (length line) max_sticker_len (omega arith)) (
          ap
            (λ p.
              done (
                command_success,
                record shown { chat = lmp_history_append os p.1.my_nick line p.1 },
              ))
            up))

  sticker_send_send :
      sticker_send os code (codes "send " ++ name) created ≡ done (command_success, sent)
  unfolding run_command named_command str_eq
  sticker_send_send =
      sticker_send_words os code b's' (codes "end") name created ready (omega arith)
      ∙ rw (second_word b bs bare, run_command)
          (rw (get_sticker-append s.sticker_array made absent, named_command) send_text-created)

  -- If the stickers are loaded and a user enters the command create with a name and then types a
  -- text and ESC, both the command and a following send with that name succeed: the table has the
  -- sticker as its new last entry, the input behind ESC is left, and the frame that is sent
  -- carries the text as it was typed. The name is a word without blanks of fewer than 32 bytes
  -- that no sticker has, the text has fewer than 2047 bytes and no ESC, backspace or NUL, there is
  -- room in the table, the directory of the user is made and the frame is sent with success.
  pub sticker_send-sticker_send :
      s.input ≡ text ++ (escape ∷ rest)
      → (t : Stickers) × (u : Stickers) × (sticker_send os code (codes "create " ++ name) s
          ≡ done (command_success, t))
        × (t.sticker_array ≡ s.sticker_array ++ (made ∷ []))
        × (t.input ≡ rest)
        × (sticker_send os code (codes "send " ++ name) t ≡ done (command_success, u))
        × (u.chat.sends ≡ s.chat.sends ++ ((code, text) ∷ []))
  sticker_send-sticker_send typing =
      let shown = note (text ++ codes "\n") created in
      let framed : Chat = record shown.chat { sends = shown.chat.sends ++ ((code, text) ∷ []) } in
      (
        created,
        sent,
        sticker_send_create typing,
        refl,
        refl,
        sticker_send_send,
        ap (λ c. c.sends) (lmp_history_append-same os framed.my_nick (codes "\n" ++ text) framed),
      )
