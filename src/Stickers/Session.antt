-- ===== src/Stickers/Session.antt =====
-- Stickers over several runs of the program, and what `load_stickers` does to the user's directory.
use mathlib.Core.List.{append-nil, append_assoc}
use socket_speak.Base.{
  ℕ, zero, suc, ◌+◌, ◌≤◌, ◌<◌, ◌≡◌, ◌≢◌, refl, sym, ap, ◌∙◌, inl, inr, List, [], ◌∷◌, ◌++◌, map,
  true, false, Option, none, some, ltb, lt→ltb, ltb→lt, length, length-append, codes, cstr, All,
  All-append, str_eq_refl, Bool-cases, arith,
}
use socket_speak.Process.{Os, Process, Disk, done, fault, lookup, contents_of, write, lookup-write}
use socket_speak.Directory.{get_user_directory, path_in_user_directory}
use socket_speak.Directory.Paths.{IsIn, get_user_directory-IsIn, path_in_user_directory-IsIn}
use socket_speak.Chat.History.{append_file}
use socket_speak.Stickers.Table.{
  StickerEntry, max_stickers, max_sticker_len, closes, within, append_again, end_within,
  end_of_file, load_loop, loaded_from, load_stickers, save_sticker, sticker_text,
}
use socket_speak.Stickers.RoundTrip.{IsEntry, with_newline, file_of, load_loop-file_of}

abbrev pub saved_stickers : List ℕ
saved_stickers = codes "saved_stickers.txt"

load_stickers-at :
    (os : Os) (es : List StickerEntry) (p : Process)
    → get_user_directory os p ≡ done p
    → length (p.user_directory ++ saved_stickers) < 512
    → load_stickers os es p
      ≡ loaded_from es
          (lookup (p.user_directory ++ saved_stickers) p.files)
          (record p { user_directory = p.user_directory ++ saved_stickers })
unfolding load_stickers
load_stickers-at os es p here short =
    rw (here, lt→ltb (length (p.user_directory ++ saved_stickers)) 512 short) refl

load_stickers-eq :
    (os : Os) (c : ℕ) (cs : List ℕ) (es : List StickerEntry) (p : Process)
    → IsIn (c ∷ cs) p
    → length ((c ∷ cs) ++ saved_stickers) < 512
    → load_stickers os es p
      ≡ loaded_from es
          (lookup ((c ∷ cs) ++ saved_stickers) p.files)
          (record p { user_directory = (c ∷ cs) ++ saved_stickers })
load_stickers-eq os c cs es p h short =
    load_stickers-at os es p (get_user_directory-IsIn os c cs p h) (rw h.here short)
    ∙ ap
        (λ d.
          loaded_from es (lookup (d ++ saved_stickers) p.files)
            (record p { user_directory = d ++ saved_stickers }))
        h.here

loaded_from-process :
    (es loaded : List StickerEntry) (o : Option (List ℕ)) (r q : Process)
    → loaded_from es o r ≡ done (loaded, q)
    → q ≡ r
unfolding loaded_from
loaded_from-process es loaded none r q e = ground arith
loaded_from-process es loaded (some contents) r q e = ground arith

-- Once load_stickers has returned, every file of the user is opened at a path in which the name
-- saved_stickers.txt stands between the directory and the file name. The directory was made and
-- the path is shorter than 512 bytes.
pub path_in_user_directory-load_stickers :
    (os : Os) (c : ℕ) (cs filename : List ℕ) (es loaded : List StickerEntry) (p q : Process)
    → IsIn (c ∷ cs) p
    → length (((c ∷ cs) ++ saved_stickers) ++ filename) < 512
    → load_stickers os es p ≡ done (loaded, q)
    → path_in_user_directory os filename q ≡ done (((c ∷ cs) ++ saved_stickers) ++ filename, q)
path_in_user_directory-load_stickers os c cs filename es loaded p q h short ok =
    let size = length-append ((c ∷ cs) ++ saved_stickers) filename in
    let e = sym (load_stickers-eq os c cs es p h (omega arith)) ∙ ok in
    let same = loaded_from-process es loaded _ _ q e in
    path_in_user_directory-IsIn os c (cs ++ saved_stickers) filename q
      (record {
        here = ap (λ r. r.user_directory) same;
        made = ap (λ r. r.made_directory) same ∙ h.made;
      })
      short

-- The file holds these stickers.
abbrev pub IsSavedIn : List ℕ → List StickerEntry → Process → Type 0
IsSavedIn directory saved p = lookup (directory ++ saved_stickers) p.files ≡ some (file_of saved)

-- What `load_stickers` does with a file of saved stickers.
pub load_stickers-saved :
    (os : Os) (c : ℕ) (cs : List ℕ) (saved : List StickerEntry) (p : Process)
    → IsIn (c ∷ cs) p
    → length ((c ∷ cs) ++ saved_stickers) < 512
    → IsSavedIn (c ∷ cs) saved p
    → All IsEntry saved
    → length saved ≤ max_stickers
    → load_stickers os [] p
      ≡ done (map with_newline saved, record p { user_directory = (c ∷ cs) ++ saved_stickers })
unfolding loaded_from
load_stickers-saved os c cs saved p h short kept entries few =
    load_stickers-eq os c cs [] p h short
    ∙ rw (kept, load_loop-file_of saved [] entries (omega arith)) refl

file_of-snoc :
    (saved : List StickerEntry) (e : StickerEntry)
    → file_of (saved ++ (e ∷ [])) ≡ file_of saved ++ sticker_text e
file_of-snoc [] e = append-nil (sticker_text e)
file_of-snoc (f ∷ saved) e =
    ap (λ t. sticker_text f ++ t) (file_of-snoc saved e)
    ∙ sym (append_assoc (sticker_text f) (file_of saved) (sticker_text e))

abbrev old_contents : List ℕ → Disk → List ℕ
old_contents path files = contents_of (lookup path files)

save_sticker-eq :
    (os : Os) (c : ℕ) (cs : List ℕ) (e : StickerEntry) (p : Process)
    → IsIn (c ∷ cs) p
    → os.opens (c ∷ cs) ≡ true
    → save_sticker os e p
      ≡ done (record p {
        files = write (c ∷ cs) (old_contents (c ∷ cs) p.files ++ sticker_text e) p.files;
      })
unfolding save_sticker append_file
save_sticker-eq os c cs e p h opens = rw (get_user_directory-IsIn os c cs p h, h.here, opens) refl

-- A process that begins with the files that another one left.
abbrev pub next_run : List ℕ → Process → Process
next_run directory r = record r { user_directory = directory }

-- If the file of stickers holds saved ones, then load_stickers, save_sticker of a new one and, in
-- a process that starts with the files so written, load_stickers again all succeed, and the last
-- loads the saved stickers and then the new one, each text with one more newline. The directory of
-- the user is made, the path is shorter than 512 bytes, the file opens, there is room in the
-- table; names are shorter than 32 bytes and have no newline, carriage return or NUL; the lines of
-- a text are shorter than 510 bytes, have no newline or NUL and are not the closing tag; and a
-- text with its newlines is shorter than 2048 bytes.
pub save_sticker-load_stickers :
    (os : Os) (c : ℕ) (cs : List ℕ) (saved : List StickerEntry) (e : StickerEntry) (p : Process)
    → IsIn (c ∷ cs) p
    → length ((c ∷ cs) ++ saved_stickers) < 512
    → IsSavedIn (c ∷ cs) saved p
    → All IsEntry saved
    → IsEntry e
    → length saved < max_stickers
    → os.opens ((c ∷ cs) ++ saved_stickers) ≡ true
    → (q : Process) × (r : Process) × (t : Process) × (load_stickers os [] p
        ≡ done (map with_newline saved, q))
      × (save_sticker os e q ≡ done r)
      × (load_stickers os [] (next_run (c ∷ cs) r) ≡ done (map with_newline (saved ++ (e ∷ [])), t))
save_sticker-load_stickers os c cs saved e p h short kept entries entry few opens =
    let path = (c ∷ cs) ++ saved_stickers in
    let old = old_contents path p.files in
    let moved : Process = record p { user_directory = path } in
    let moved-IsIn : IsIn path moved = record { here = refl; made = h.made } in
    let after : Process = record moved { files = write path (old ++ sticker_text e) p.files } in
    let later = next_run (c ∷ cs) after in
    let later-IsIn : IsIn (c ∷ cs) later = record { here = refl; made = h.made } in
    let kept' : IsSavedIn (c ∷ cs) (saved ++ (e ∷ [])) later =
      lookup-write path path (old ++ sticker_text e) p.files
      ∙ rw (str_eq_refl path) (
          ap (λ o. some (contents_of o ++ sticker_text e)) kept
          ∙ ap some (sym (file_of-snoc saved e))) in
    (
      moved,
      after,
      record later { user_directory = path },
      load_stickers-saved os c cs saved p h short kept entries (omega arith),
      save_sticker-eq os c (cs ++ saved_stickers) e moved moved-IsIn opens,
      load_stickers-saved os c cs (saved ++ (e ∷ [])) later later-IsIn short kept'
          (All-append IsEntry saved (e ∷ []) entries (entry, tt))
          (omega (arith, length-append saved (e ∷ []))),
    )

abbrev IsOpen : List ℕ → Type 0
IsOpen line = (closes (cstr line) ≡ false) × (cstr line ≢ [])

append_again_full :
    (fuel b : ℕ) (bs : List ℕ) (e : StickerEntry)
    → closes (b ∷ bs) ≡ false
    → max_sticker_len < length e.sticker + fuel
    → length e.sticker < max_sticker_len
    → append_again fuel (b ∷ bs) e ≡ fault
unfolding append_again
append_again_full zero b bs e unclosed enough room = absurd (omega arith)
append_again_full (suc fuel) b bs e unclosed enough room =
    let longer = length-append e.sticker (b ∷ bs) in
    elim (Bool-cases (ltb (length (e.sticker ++ (b ∷ bs))) max_sticker_len)) [
      | inl inside ↦
          rw (unclosed, append_again)
            (rw (inside, append_again)
              (append_again_full fuel b bs (record e { sticker = e.sticker ++ (b ∷ bs) }) unclosed
                (omega (arith, longer))
                (ltb→lt (length (e.sticker ++ (b ∷ bs))) max_sticker_len inside)))
      | inr full ↦ rw (unclosed, append_again) (rw (full, append_again) refl)
    ]

-- If no line behind the name of a sticker is the closing tag and none is empty, the loop of
-- load_stickers writes behind the array of the text, also if all lines of the file fit in it. The
-- line in the buffer is not empty and does not close, and the text so far fits.
pub load_loop_unclosed :
    (lines : List (List ℕ)) (line : List ℕ) (e : StickerEntry) (es : List StickerEntry)
    → All IsOpen lines
    → closes line ≡ false
    → line ≢ []
    → length e.sticker < max_sticker_len
    → load_loop (within line e) lines es ≡ fault
unfolding load_loop end_of_file end_within
load_loop_unclosed [] [] e es open' unclosed some_ room = absurd (some_ refl)
load_loop_unclosed [] (b ∷ line) e es open' unclosed some_ room =
    rw (append_again_full (max_sticker_len + 1) b line e unclosed (omega arith) room) refl
load_loop_unclosed (l ∷ lines) line e es ((first, filled), unclosed) open' some_ room =
    elim (Bool-cases (ltb (length (e.sticker ++ cstr l)) max_sticker_len)) [
      | inl inside ↦
          rw (first, inside)
            (load_loop_unclosed lines (cstr l) (record e { sticker = e.sticker ++ cstr l }) es
              unclosed first filled (ltb→lt (length (e.sticker ++ cstr l)) max_sticker_len inside))
      | inr full ↦ rw (first, full) refl
    ]
