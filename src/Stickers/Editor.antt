-- ===== src/Stickers/Editor.antt =====
-- `read_multiline_overlay`: the text that is typed until ESC or the end of the input. The buffer
-- grows by `realloc`, which is taken to succeed.
use socket_speak.Base.{ℕ, List, [], ◌∷◌, ◌++◌, Bool, ◌||◌, ◌==◌, if◌then◌else◌}

abbrev pub escape : ℕ
escape = 27

-- The last byte goes; an empty text stays.
unfoldable pub drop_last : List ℕ → List ℕ
drop_last [] = []
drop_last (b ∷ []) = []
drop_last (b ∷ c ∷ bs) = b ∷ drop_last (c ∷ bs)

abbrev pub is_backspace : ℕ → Bool
is_backspace c = c == 127 || c == 8

-- The text and the rest of the input.
unfoldable pub read_text : List ℕ → List ℕ → List ℕ × List ℕ
unfolding drop_last
read_text text [] = (text, [])
read_text text (c ∷ input) =
    let more = read_text (if is_backspace c then drop_last text else text ++ (c ∷ [])) input in
    if c == escape then (text, input) else more
