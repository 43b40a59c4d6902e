-- ===== src/Examples/Stickers.antt =====
-- Stickers that are saved and loaded (sticker_commands.c).
use socket_speak.Base.{true, ◌≡◌, refl, [], ◌∷◌, ◌++◌, map, codes, cstr, str_eq, arith}
use socket_speak.Process.{Process, done, fault, lookup}
use socket_speak.Directory.Paths.{IsIn}
use socket_speak.Directory.{get_user_directory, path_in_user_directory}
use socket_speak.Stickers.Table.{
  StickerEntry, closes, within, get_sticker, load_loop, load_stickers, save_sticker,
}
use socket_speak.Stickers.RoundTrip.{IsEntry, with_newline, file_of}
use socket_speak.Stickers.Session.{
  saved_stickers, IsSavedIn, load_stickers-saved, next_run, path_in_user_directory-load_stickers,
  save_sticker-load_stickers, load_loop_unclosed,
}
use socket_speak.Lmp.Registry.{command_success}
use socket_speak.Stickers.Editor.{escape}
use socket_speak.Stickers.Commands.{Stickers, sticker_send}
use socket_speak.Stickers.Sending.{sticker_send-sticker_send}
use socket_speak.Examples.Chat.{chat}
use socket_speak.Examples.Directory.{os, directory, inside}

abbrev cat : StickerEntry
cat = record { name = codes "cat"; sticker = codes "/\\_/\\\n(o.o)" }

abbrev dog : StickerEntry
dog = record { name = codes "dog"; sticker = codes "woof" }

cat-IsEntry : IsEntry cat
cat-IsEntry = record {
  lines = codes "/\\_/\\" ∷ codes "(o.o)" ∷ [];
  split = refl;
  texts = ground arith;
  named = ground arith;
  short = omega arith;
}

dog-IsEntry : IsEntry dog
dog-IsEntry = record {
  lines = codes "woof" ∷ [];
  split = refl;
  texts = ground arith;
  named = ground arith;
  short = omega arith;
}

abbrev kept : Process
kept = record inside { files = (directory ++ saved_stickers, file_of (cat ∷ [])) ∷ [] }

kept-IsIn : IsIn directory kept
kept-IsIn = record { here = refl; made = refl }

kept-saved : IsSavedIn directory (cat ∷ []) kept
unfolding lookup str_eq
kept-saved = refl

save_sticker-load_stickers_example :
    (q : Process) × (r : Process) × (t : Process) × (load_stickers os [] kept
      ≡ done (map with_newline (cat ∷ []), q))
    × (save_sticker os dog q ≡ done r)
    × (load_stickers os [] (next_run directory r)
        ≡ done (map with_newline ((cat ∷ []) ++ (dog ∷ [])), t))
save_sticker-load_stickers_example =
    save_sticker-load_stickers os b'/' (codes "lmp/a/") (cat ∷ []) dog kept kept-IsIn (omega arith)
      kept-saved (cat-IsEntry, tt) dog-IsEntry (omega arith) refl

load_loop_unclosed_example :
    load_loop
      (within (codes "o\n") (record { name = codes "o"; sticker = [] }))
      (codes "x\n" ∷ [])
      []
    ≡ fault
unfolding closes str_eq cstr
load_loop_unclosed_example =
    load_loop_unclosed (codes "x\n" ∷ []) (codes "o\n") (record { name = codes "o"; sticker = [] })
      [] ((refl, λ e. ground arith), tt) refl (λ e. ground arith) (omega arith)

path_in_user_directory-load_stickers_example :
    path_in_user_directory os
      (codes "nick.txt")
      (record kept { user_directory = directory ++ saved_stickers })
    ≡ done (
      (directory ++ saved_stickers) ++ codes "nick.txt",
      record kept { user_directory = directory ++ saved_stickers },
    )
path_in_user_directory-load_stickers_example =
    path_in_user_directory-load_stickers os b'/' (codes "lmp/a/") (codes "nick.txt") []
      (map with_newline (cat ∷ [])) kept
      (record kept { user_directory = directory ++ saved_stickers }) kept-IsIn (omega arith)
      (load_stickers-saved os b'/' (codes "lmp/a/") (cat ∷ []) kept kept-IsIn (omega arith)
        kept-saved (cat-IsEntry, tt) (omega arith))

-- A smiley that is typed.
abbrev typing : Stickers
typing = record {
  sticker_array = cat ∷ [];
  history_loaded = true;
  input = codes ":-)" ++ (escape ∷ codes "x");
  chat = chat;
}

sticker_send-sticker_send_example :
    (t : Stickers) × (u : Stickers) × (sticker_send os 5 (codes "create smile") typing
      ≡ done (command_success, t))
    × (t.sticker_array
        ≡ (cat ∷ []) ++ (record { name = codes "smile"; sticker = codes ":-)" } ∷ []))
    × (t.input ≡ codes "x")
    × (sticker_send os 5 (codes "send smile") t ≡ done (command_success, u))
    × (u.chat.sends ≡ [] ++ ((5, codes ":-)") ∷ []))
unfolding get_sticker str_eq get_user_directory
sticker_send-sticker_send_example =
    sticker_send-sticker_send os 5 b's' (codes "mile") (codes ":-)") (codes "x") typing refl
      (omega arith) refl (ground arith) (omega arith) (omega arith) (omega arith) refl refl refl
