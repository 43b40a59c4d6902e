-- ===== src/Stickers/Table.antt =====
-- The table of stickers and the file that keeps it: `load_stickers`, `save_sticker`, `get_sticker`.
use socket_speak.Base.{
  ℕ, zero, suc, ◌+◌, List, [], ◌∷◌, ◌++◌, Bool, true, false, ◌||◌, Option, none, some, ◌==◌, ltb,
  if◌then◌else◌, length, codes, cstr, fgets_lines, str_eq,
}
use socket_speak.Process.{Os, Process, Result, done, fault, diverged, ◌>>=◌, ◌>>◌, fits, lookup}
use socket_speak.Directory.{get_user_directory}
use socket_speak.Chat.History.{append_file}

-- StickerEntry, two arrays of 32 and 2048 bytes.
pub record StickerEntry : Type 0 where
  pub name : List ℕ
  pub sticker : List ℕ

abbrev pub max_stickers : ℕ
max_stickers = 64

abbrev pub max_sticker_len : ℕ
max_sticker_len = 2048

abbrev pub opening : List ℕ
opening = codes "<STICKER>"

abbrev pub closing : List ℕ
closing = codes "</STICKER>"

unfoldable pub closes : List ℕ → Bool
closes line = str_eq line (closing ++ codes "\n") || str_eq line closing

-- line[strcspn(line, "\r\n")] = 0
unfoldable pub cut_line : List ℕ → List ℕ
cut_line [] = []
cut_line (b ∷ bs) = let rest = cut_line bs in if b == b'\r' || b == b'\n' then [] else b ∷ rest

-- Where the loop of `load_stickers` is: between stickers, before the name, or in the text of a
-- sticker, with the line that the buffer holds.
pub data Place : Type 0 where
  between before_name : Place
  within : List ℕ → StickerEntry → Place

-- The inner loop once `fgets` fails: the buffer keeps its line, which is appended in each turn. A
-- line that is not empty fills the array before the fuel ends; with an empty one no turn changes
-- anything, so that the loop never ends.
unfoldable pub append_again : ℕ → List ℕ → StickerEntry → Result StickerEntry
unfolding closes
append_again zero line e = diverged
append_again (suc fuel) line e = elim (closes line) [
  | true ↦ done e
  | false ↦ elim (ltb (length (e.sticker ++ line)) max_sticker_len) [
    | true ↦ append_again fuel line (record e { sticker = e.sticker ++ line })
    | false ↦ fault
  ]
]

-- The end of the file inside a sticker; before its name the buffer still holds the tag.
unfoldable pub end_within : List ℕ → StickerEntry → List StickerEntry → Result (List StickerEntry)
unfolding append_again
end_within line e es = append_again (max_sticker_len + 1) line e >>= λ f. done (es ++ (f ∷ []))

unfoldable pub end_of_file : Place → List StickerEntry → Result (List StickerEntry)
unfolding end_within
end_of_file between es = done es
end_of_file before_name es =
    if ltb (length es) max_stickers
    then end_within opening (record { name = opening; sticker = [] }) es
    else fault
end_of_file (within line e) es = end_within line e es

unfoldable pub load_loop : Place → List (List ℕ) → List StickerEntry → Result (List StickerEntry)
unfolding closes cut_line end_of_file
load_loop place [] es = end_of_file place es
load_loop between (line ∷ lines) es =
    load_loop (if str_eq (cstr line) (opening ++ codes "\n") then before_name else between) lines es
load_loop before_name (line ∷ lines) es = do
  let name = cut_line (cstr line)
  fits 32 name
  if ltb (length es) max_stickers
      then load_loop (within name (record { name = name; sticker = [] })) lines es
      else fault
load_loop (within old e) (line ∷ lines) es =
    let text = cstr line in
    let closed = load_loop between lines (es ++ (e ∷ [])) in
    let more =
      fits max_sticker_len (e.sticker ++ text)
      >> load_loop (within text (record e { sticker = e.sticker ++ text })) lines es in
    if closes text then closed else more

-- The file that is read, if it opens.
unfoldable pub loaded_from :
    List StickerEntry → Option (List ℕ) → Process → Result (List StickerEntry × Process)
loaded_from es none p = done (es, p)
loaded_from es (some contents) p =
    load_loop between (fgets_lines 512 contents) es >>= λ loaded. done (loaded, p)

-- The file name is appended to the array of `get_user_directory`, which stays so.
unfoldable pub load_stickers :
    Os → List StickerEntry → Process → Result (List StickerEntry × Process)
unfolding loaded_from
load_stickers os es p = do
  q ← get_user_directory os p
  let path = q.user_directory ++ codes "saved_stickers.txt"
  fits 512 path
  loaded_from es (lookup path q.files) (record q { user_directory = path })

-- What is written for a sticker.
abbrev pub sticker_text : StickerEntry → List ℕ
sticker_text e =
    (opening ++ codes "\n")
    ++ ((e.name ++ codes "\n") ++ ((e.sticker ++ codes "\n") ++ (closing ++ codes "\n")))

-- The file name is not appended here.
unfoldable pub save_sticker : Os → StickerEntry → Process → Result Process
save_sticker os e p = do
  q ← get_user_directory os p
  done (append_file os q.user_directory (sticker_text e) q).1

unfoldable pub get_sticker : List StickerEntry → List ℕ → Option (List ℕ)
get_sticker [] name = none
get_sticker (e ∷ es) name = if str_eq e.name name then some e.sticker else get_sticker es name
