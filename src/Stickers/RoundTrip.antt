-- ===== src/Stickers/RoundTrip.antt =====
-- What `save_sticker` writes is what `load_stickers` reads, with one more newline.
use mathlib.Core.List.{append-nil, append_assoc}
use socket_speak.Base.{
  ℕ, ◌+◌, ◌≤◌, ◌<◌, ◌≡◌, ◌≢◌, refl, sym, ap, ◌∙◌, List, [], ◌∷◌, ◌++◌, map, true, false, lt→ltb,
  length, length-append, codes, cstr, cstr_self, IsString, IsLine, All, All-append, fgets_lines,
  fgets_lines-line, str_eq, str_eq_iff, arith,
}
use socket_speak.Process.{done}
use socket_speak.Stickers.Table.{
  StickerEntry, max_stickers, max_sticker_len, opening, closing, closes, cut_line, between,
  before_name, within, load_loop, sticker_text,
}

-- A text of lines, each with its newline.
abbrev pub body : List (List ℕ) → List ℕ
body [] = []
body (l ∷ ls) = (l ++ codes "\n") ++ body ls

-- A line that `load_stickers` takes as text.
abbrev pub IsText : List ℕ → Type 0
IsText l = IsLine l × IsString l × (length l < 510) × (l ≢ closing)

abbrev pub IsName : List ℕ → Type 0
IsName name = All (λ b. (b ≢ b'\n') × (b ≢ b'\r') × (b ≢ 0)) name × (length name < 32)

-- A sticker that the file can hold.
pub record IsEntry (e : StickerEntry) : Type 0 where
  pub lines : List (List ℕ)
  pub split : e.sticker ++ codes "\n" ≡ body lines
  pub texts : All IsText lines
  pub named : IsName e.name
  pub short : length e.sticker + 1 < max_sticker_len

str_eq_newline : (l m : List ℕ) → IsLine m → str_eq (l ++ codes "\n") m ≡ false
unfolding str_eq
str_eq_newline [] [] clean = refl
str_eq_newline [] (c ∷ m) clean = ground arith
str_eq_newline (b ∷ l) [] clean = refl
str_eq_newline (b ∷ l) (c ∷ m) clean = ground (arith, str_eq_newline l m clean.1)

str_eq-snoc :
    (l m : List ℕ) → IsLine l → IsLine m → str_eq (l ++ codes "\n") (m ++ codes "\n") ≡ str_eq l m
unfolding str_eq
str_eq-snoc [] [] hl hm = refl
str_eq-snoc [] (c ∷ m) hl hm = ground arith
str_eq-snoc (b ∷ l) [] hl hm = ground arith
str_eq-snoc (b ∷ l) (c ∷ m) hl hm = ground (arith, str_eq-snoc l m hl.1 hm.1)

closing-IsLine : IsLine closing
closing-IsLine = omega arith

closes_text : (l : List ℕ) → IsLine l → l ≢ closing → closes (l ++ codes "\n") ≡ false
unfolding closes
closes_text l line other = ground (
  arith,
  str_eq-snoc l closing line closing-IsLine,
  str_eq_newline l closing closing-IsLine,
  str_eq_iff l closing,
)

newline-IsString : (l : List ℕ) → IsString l → IsString (l ++ codes "\n")
newline-IsString l clean = All-append _ l (codes "\n") clean (omega arith)

cut_line-name : (name : List ℕ) → IsName name → cut_line (name ++ codes "\n") ≡ name
unfolding cut_line
cut_line-name [] h = refl
cut_line-name (b ∷ bs) (clean, short) = ground (arith, cut_line-name bs (clean.1, omega arith))

-- One line of text within a sticker.
load_text :
    (old l rest : List ℕ) (e : StickerEntry) (es : List StickerEntry)
    → IsText l
    → length e.sticker + (length l + 1) < max_sticker_len
    → load_loop (within old e) (fgets_lines 512 (l ++ (b'\n' ∷ rest))) es
      ≡ load_loop
          (within (l ++ codes "\n") (record e { sticker = e.sticker ++ (l ++ codes "\n") }))
          (fgets_lines 512 rest)
          es
unfolding load_loop
load_text old l rest e es (line, clean, short, other) room =
    rw
      (
        fgets_lines-line 512 l rest line (omega arith),
        cstr_self (l ++ codes "\n") (newline-IsString l clean),
        closes_text l line other,
      )
      (rw
        (lt→ltb (length (e.sticker ++ (l ++ codes "\n"))) max_sticker_len
          (omega (arith, length-append e.sticker (l ++ codes "\n"), length-append l (codes "\n"))))
        refl)

closes-closing : closes (closing ++ codes "\n") ≡ true
unfolding closes str_eq
closes-closing = refl

load_closing :
    (old rest : List ℕ) (e : StickerEntry) (es : List StickerEntry)
    → load_loop (within old e) (fgets_lines 512 (closing ++ (b'\n' ∷ rest))) es
      ≡ load_loop between (fgets_lines 512 rest) (es ++ (e ∷ []))
unfolding load_loop
load_closing old rest e es =
    rw
      (
        fgets_lines-line 512 closing rest closing-IsLine (omega arith),
        cstr_self (closing ++ codes "\n") (omega arith),
        closes-closing,
      )
      refl

load_body :
    (ls : List (List ℕ)) (old rest : List ℕ) (e : StickerEntry) (es : List StickerEntry)
    → All IsText ls
    → length e.sticker + length (body ls) < max_sticker_len
    → load_loop (within old e) (fgets_lines 512 (body ls ++ (closing ++ (b'\n' ∷ rest)))) es
      ≡ load_loop between
          (fgets_lines 512 rest)
          (es ++ (record e { sticker = e.sticker ++ body ls } ∷ []))
load_body [] old rest e es texts room =
    load_closing old rest e es
    ∙ ap (λ t. load_loop between (fgets_lines 512 rest) (es ++ (record e { sticker = t } ∷ [])))
        (sym (append-nil e.sticker))
load_body (l ∷ ls) old rest e es (text, texts) room =
    let line = l ++ codes "\n" in
    let tail = closing ++ (b'\n' ∷ rest) in
    let size = length-append line (body ls) in
    let size_line = length-append l (codes "\n") in
    let size_grown = length-append e.sticker line in
    let grown : StickerEntry = record e { sticker = e.sticker ++ line } in
    ap (λ t. load_loop (within old e) (fgets_lines 512 t) es)
      (append_assoc line (body ls) tail ∙ append_assoc l (codes "\n") (body ls ++ tail))
    ∙ load_text old l (body ls ++ tail) e es text (omega arith)
    ∙ load_body ls line rest grown es texts (omega arith)
    ∙ ap (λ t. load_loop between (fgets_lines 512 rest) (es ++ (record e { sticker = t } ∷ [])))
        (append_assoc e.sticker line (body ls))

-- The tag and the name.
abbrev IsNameByte : ℕ → Type 0
IsNameByte b = (b ≢ b'\n') × (b ≢ b'\r') × (b ≢ 0)

name-IsLine : (name : List ℕ) → All IsNameByte name → IsLine name
name-IsLine [] h = tt
name-IsLine (b ∷ bs) (h, hs) = (h.0, name-IsLine bs hs)

name-IsString : (name : List ℕ) → All IsNameByte name → IsString name
name-IsString [] h = tt
name-IsString (b ∷ bs) (h, hs) = (h.2, name-IsString bs hs)

name_step :
    (name : List ℕ) (lines : List (List ℕ)) (es : List StickerEntry)
    → cstr (name ++ codes "\n") ≡ name ++ codes "\n"
    → cut_line (name ++ codes "\n") ≡ name
    → length name < 32
    → length es < max_stickers
    → load_loop before_name ((name ++ codes "\n") ∷ lines) es
      ≡ load_loop (within name (record { name = name; sticker = [] })) lines es
unfolding load_loop
name_step name lines es whole cut short room =
    rw (whole, cut, lt→ltb (length name) 32 short, lt→ltb (length es) max_stickers room) refl

load_name :
    (name rest : List ℕ) (es : List StickerEntry)
    → IsName name
    → length es < max_stickers
    → load_loop before_name (fgets_lines 512 (name ++ (b'\n' ∷ rest))) es
      ≡ load_loop (within name (record { name = name; sticker = [] })) (fgets_lines 512 rest) es
load_name name rest es named room =
    let nl = codes "\n" in
    ap (λ t. load_loop before_name t es)
      (fgets_lines-line 512 name rest (name-IsLine name named.0) (omega (arith, named.1)))
    ∙ name_step name (fgets_lines 512 rest) es
        (cstr_self (name ++ nl) (newline-IsString name (name-IsString name named.0)))
        (cut_line-name name named) named.1 room

opening_step :
    (lines : List (List ℕ)) (es : List StickerEntry)
    → load_loop between ((opening ++ codes "\n") ∷ lines) es ≡ load_loop before_name lines es
unfolding load_loop str_eq cstr
opening_step lines es = refl

load_opening :
    (rest : List ℕ) (es : List StickerEntry)
    → load_loop between (fgets_lines 512 (opening ++ (b'\n' ∷ rest))) es
      ≡ load_loop before_name (fgets_lines 512 rest) es
load_opening rest es =
    ap (λ t. load_loop between t es) (fgets_lines-line 512 opening rest (omega arith) (omega arith))
    ∙ opening_step (fgets_lines 512 rest) es

-- The entry as it is read back.
abbrev pub with_newline : StickerEntry → StickerEntry
with_newline e = record e { sticker = e.sticker ++ codes "\n" }

abbrev pub file_of : List StickerEntry → List ℕ
file_of [] = []
file_of (e ∷ es) = sticker_text e ++ file_of es

load_entry :
    (e : StickerEntry) (rest : List ℕ) (es : List StickerEntry)
    → IsEntry e
    → length es < max_stickers
    → load_loop between (fgets_lines 512 (sticker_text e ++ rest)) es
      ≡ load_loop between (fgets_lines 512 rest) (es ++ (with_newline e ∷ []))
load_entry e rest es h room =
    let nl = codes "\n" in
    let z = closing ++ nl in
    let y = (e.sticker ++ nl) ++ z in
    let after = closing ++ (b'\n' ∷ rest) in
    let named : StickerEntry = record { name = e.name; sticker = [] } in
    let text : ((e.name ++ nl) ++ y) ++ rest ≡ e.name ++ (b'\n' ∷ (body h.lines ++ after)) =
      append_assoc (e.name ++ nl) y rest
      ∙ append_assoc e.name nl (y ++ rest)
      ∙ ap (λ t. e.name ++ (b'\n' ∷ t))
          (append_assoc (e.sticker ++ nl) z rest ∙ ap (λ t. t ++ after) h.split) in
    let size : length (body h.lines) ≡ length e.sticker + 1 =
      ap length (sym h.split) ∙ length-append e.sticker nl in
    ap (λ t. load_loop between (fgets_lines 512 (opening ++ (b'\n' ∷ t))) es) text
    ∙ load_opening (e.name ++ (b'\n' ∷ (body h.lines ++ after))) es
    ∙ load_name e.name (body h.lines ++ after) es h.named room
    ∙ load_body h.lines e.name rest named es h.texts (omega (arith, h.short))
    ∙ ap (λ t. load_loop between (fgets_lines 512 rest) (es ++ (record e { sticker = t } ∷ [])))
        (sym h.split)

nothing_left : (es : List StickerEntry) → load_loop between (fgets_lines 512 []) es ≡ done es
unfolding load_loop fgets_lines
nothing_left es = refl

-- Reading the text that save_sticker writes for some stickers, where they fit in the table, gives
-- these stickers in their order, each text with one more newline. Names are shorter than 32 bytes
-- without newline, carriage return and NUL; the lines of a text are shorter than 510 bytes,
-- without NUL, and none is the closing tag; the text is shorter than 2047 bytes.
pub load_loop-file_of :
    (saved es : List StickerEntry)
    → All IsEntry saved
    → length es + length saved ≤ max_stickers
    → load_loop between (fgets_lines 512 (file_of saved)) es ≡ done (es ++ map with_newline saved)
load_loop-file_of [] es h room = nothing_left es ∙ ap done (sym (append-nil es))
load_loop-file_of (e ∷ saved) es (h, hs) room =
    load_entry e (file_of saved) es h (omega arith)
    ∙ load_loop-file_of saved (es ++ (with_newline e ∷ [])) hs
        (omega (arith, length-append es (with_newline e ∷ [])))
    ∙ ap done (append_assoc es (with_newline e ∷ []) (map with_newline saved))
