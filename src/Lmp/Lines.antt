-- ===== src/Lmp/Lines.antt =====
-- How a command line reaches its handler: `dispatch_send` (lmp.c), and the line that `chat_loop_user`
-- (group_user_comms.c) makes of plain text.
use socket_speak.Base.{
  ℕ, ◌+◌, ◌≤◌, ◌<◌, ◌≡◌, refl, ◌≢◌, List, [], ◌∷◌, ◌++◌, false, Option, none, some, leb, ltb, ◌==◌,
  if◌then◌else◌, length, arith, All, codes, ap, Bool-cases, inl, inr,
}
use socket_speak.Lmp.Registry.{
  CommandResult, command_error, CommandEntry, skip_blanks, split_word, find_name, call_send,
  send_words, dispatch_send,
}

-- A command's name: a word without blanks.
abbrev pub IsBare : List ℕ → Type 0
IsBare = All (λ b. b ≢ b' ')

pub split_word-append :
    (name args : List ℕ) → IsBare name → split_word (name ++ (b' ' ∷ args)) ≡ (name, args)
unfolding split_word
split_word-append [] args bare = refl
split_word-append (b ∷ bs) args bare = ground (arith, split_word-append bs args bare.1)

pub split_word-bare : (name : List ℕ) → IsBare name → split_word name ≡ (name, [])
unfolding split_word
split_word-bare [] bare = refl
split_word-bare (b ∷ bs) bare = ground (arith, split_word-bare bs bare.1)

pub skip_blanks-bare : (b : ℕ) (bs : List ℕ) → b ≢ b' ' → skip_blanks (b ∷ bs) ≡ b ∷ bs
unfolding skip_blanks
skip_blanks-bare b bs h = ground arith

module _ {C : Type 0} (table : List (CommandEntry C)) (ctx : C) where
  -- A line of fewer than 256 bytes that is a non-empty name without blanks, a blank and arguments
  -- runs the command of that name on what stands behind the blank.
  pub dispatch_send-words :
      (b : ℕ) (bs args : List ℕ)
      → IsBare (b ∷ bs)
      → length ((b ∷ bs) ++ (b' ' ∷ args)) < 256
      → dispatch_send table ((b ∷ bs) ++ (b' ' ∷ args)) ctx
        ≡ call_send (find_name table (b ∷ bs)) args ctx
  unfolding dispatch_send send_words
  dispatch_send-words b bs args bare short = rw (
    small (length ((b ∷ bs) ++ (b' ' ∷ args))) short,
    skip_blanks-bare b (bs ++ (b' ' ∷ args)) bare.0,
    split_word-append (b ∷ bs) args bare,
  )
    where
      small : (n : ℕ) → n < 256 → leb 256 n ≡ false
      small n h = ground arith

  -- A line of 256 bytes or more is an error, whatever it names.
  pub dispatch_send_long :
      (line : List ℕ) → 256 ≤ length line → dispatch_send table line ctx ≡ (command_error, ctx)
  unfolding dispatch_send
  dispatch_send_long line long = ground arith

-- What `chat_loop_user` hands to `dispatch_send`; `none` is its message "Message too long". A line
-- that begins with a slash is a command, any other text is the argument of `msg`.
unfoldable pub user_line : List ℕ → Option (List ℕ)
user_line [] = some (codes "msg ")
user_line (b ∷ bs) =
    if b == b'/'
    then some bs
    else if ltb (length (b ∷ bs) + 5) 1024
    then some (codes "msg " ++ (b ∷ bs))
    else none

-- Text that begins with no slash.
abbrev pub IsPlain : List ℕ → Type 0
IsPlain [] = Unit {0}
IsPlain (b ∷ bs) = b ≢ b'/'

pub user_line_plain :
    (text : List ℕ)
    → IsPlain text
    → length text + 5 < 1024
    → user_line text ≡ some (codes "msg" ++ (b' ' ∷ text))
unfolding user_line
user_line_plain [] plain short = refl
user_line_plain (b ∷ bs) plain short = ground arith

module _ {C : Type 0} (table : List (CommandEntry C)) where
  -- The body of the loop.
  unfoldable pub user_send : List ℕ → C → Option (CommandResult × C)
  user_send line ctx = elim (user_line line) [
    | none ↦ none
    | some l ↦ some (dispatch_send table l ctx)
  ]

  -- Plain text of at most 251 bytes is handed unchanged to the command msg; plain text of 252 to
  -- 1018 bytes passes the length check of the chat loop and is then an error of dispatch_send,
  -- unsent.
  pub user_send_plain :
      (text : List ℕ) (ctx : C)
      → IsPlain text
      → length text + 5 < 1024
      → user_send text ctx
        ≡ some (
            if ltb (length text) 252
            then call_send (find_name table (codes "msg")) text ctx
            else (command_error, ctx))
  unfolding user_send
  user_send_plain text ctx plain short = elim (Bool-cases (ltb (length text) 252)) [
    | inl fits ↦
        rw (fits, user_line_plain text plain short, user_send)
          (ap some
            (dispatch_send-words table ctx b'm' (codes "sg") text (omega arith) (ground arith)))
    | inr long ↦
        rw (long, user_line_plain text plain short, user_send)
          (ap some (dispatch_send_long table ctx (codes "msg" ++ (b' ' ∷ text)) (ground arith)))
  ]
