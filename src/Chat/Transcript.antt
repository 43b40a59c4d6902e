-- ===== src/Chat/Transcript.antt =====
-- The history file of a chat: what was appended is what is printed when it is loaded.
use mathlib.Core.List.{append-nil, append_assoc}
use socket_speak.Base.{
  ℕ, ◌+◌, ◌<◌, ◌≡◌, refl, sym, ap, subst, ◌∙◌, List, [], ◌∷◌, ◌++◌, map, true, some, length,
  length-append, codes, cstr, cstr_self, IsString, IsLine, All, All-append, fgets_lines,
  fgets_lines-line, str_eq_refl, arith,
}
use socket_speak.Process.{Os, Process, say, lookup, contents_of, write, lookup-write}
use socket_speak.Chat.History.{
  Chat, print_lines, load_from, append_to, lmp_history_append, lmp_history_load, history_line,
}

-- A speaker and what was said.
abbrev pub Said : Type 0
Said = List ℕ × List ℕ

abbrev text_of : Said → List ℕ
text_of (speaker, message) = b'[' ∷ (speaker ++ (codes "]: " ++ message))

-- Names and messages without a newline or a NUL, short enough for one line of the history.
abbrev pub IsSaid : Said → Type 0
IsSaid (speaker, message) =
    IsLine speaker
    × IsString speaker
    × IsLine message
    × IsString message
    × (length speaker + length message < 500)

abbrev pub line_of : Said → List ℕ
line_of (speaker, message) = history_line speaker message

abbrev pub transcript : List Said → List ℕ
transcript [] = []
transcript (m ∷ ms) = line_of m ++ transcript ms

line_of-text : (m : Said) → line_of m ≡ text_of m ++ codes "\n"
line_of-text (speaker, message) =
    ap (λ t. b'[' ∷ t) (sym (append_assoc speaker (codes "]: " ++ message) (codes "\n")))

length-text : (m : Said) → length (text_of m) ≡ length m.0 + length m.1 + 4
length-text (speaker, message) = omega (arith, length-append speaker (codes "]: " ++ message))

text-IsLine : (m : Said) → IsSaid m → IsLine (text_of m)
text-IsLine (speaker, message) (line, _, line', _, _) = (
  omega arith,
  All-append _ speaker (codes "]: " ++ message) line
      (omega arith, (omega arith, (omega arith, line'))),
)

text-IsString : (m : Said) → IsSaid m → IsString (text_of m)
text-IsString (speaker, message) (_, clean, _, clean', _) = (
  omega arith,
  All-append _ speaker (codes "]: " ++ message) clean
      (omega arith, (omega arith, (omega arith, clean'))),
)

no_lines : (p : Process) → print_lines (fgets_lines 512 []) p ≡ p
unfolding print_lines fgets_lines
no_lines p = refl

print_lines-transcript :
    (ms : List Said) (p : Process)
    → All IsSaid ms
    → print_lines (fgets_lines 512 (transcript ms)) p
      ≡ record p { prints = p.prints ++ map line_of ms }
unfolding print_lines
print_lines-transcript [] p h =
    no_lines p ∙ ap (λ t. record p { prints = t }) (sym (append-nil p.prints))
print_lines-transcript (m ∷ ms) p (h, hs) =
    let text = text_of m in
    let rest = fgets_lines 512 (transcript ms) in
    let whole = line_of-text m in
    let split : fgets_lines 512 (transcript (m ∷ ms)) ≡ line_of m ∷ rest =
      ap (fgets_lines 512)
        (ap (λ t. t ++ transcript ms) whole ∙ append_assoc text (codes "\n") (transcript ms))
      ∙ fgets_lines-line 512 text (transcript ms) (text-IsLine m h)
          (omega (arith, length-text m, h.4))
      ∙ ap (λ t. t ∷ rest) (sym whole) in
    let string : cstr (line_of m) ≡ line_of m =
      ap cstr whole
      ∙ cstr_self (text ++ codes "\n")
          (All-append _ text (codes "\n") (text-IsString m h) (omega arith))
      ∙ sym whole in
    ap (λ ls. print_lines ls p) split
    ∙ ap (λ t. print_lines rest (say t p)) string
    ∙ print_lines-transcript ms (say (line_of m) p) hs
    ∙ ap (λ t. record p { prints = t }) (append_assoc p.prints (line_of m ∷ []) (map line_of ms))

-- The messages of a chat, one after the other.
unfoldable pub append_all : Os → List Said → Chat → Chat
append_all os [] c = c
append_all os ((speaker, message) ∷ ms) c =
    append_all os ms (lmp_history_append os speaker message c)

-- The history file.
abbrev pub Keeps : List ℕ → List Said → Chat → Type 0
Keeps path ms c = (c.history_path ≡ path) × (lookup path c.process.files ≡ some (transcript ms))

lmp_history_append-eq :
    (os : Os) (b : ℕ) (path speaker message : List ℕ) (c : Chat)
    → os.opens (b ∷ path) ≡ true
    → c.history_path ≡ b ∷ path
    → lmp_history_append os speaker message c ≡ record c {
      process = record c.process {
        files =
            write
              (b ∷ path)
              (contents_of (lookup (b ∷ path) c.process.files) ++ history_line speaker message)
              c.process.files;
      };
    }
unfolding lmp_history_append
lmp_history_append-eq os b path speaker message c opens here = ground (arith, here, opens)

transcript-snoc :
    (ms : List Said) (m : Said) → transcript (ms ++ (m ∷ [])) ≡ transcript ms ++ line_of m
transcript-snoc [] m = append-nil (line_of m)
transcript-snoc (n ∷ ms) m =
    ap (λ t. line_of n ++ t) (transcript-snoc ms m)
    ∙ sym (append_assoc (line_of n) (transcript ms) (line_of m))

append_to-same :
    (os : Os) (path text : List ℕ) (c : Chat)
    → append_to os path text c ≡ record c { process = (append_to os path text c).process }
unfolding append_to
append_to-same os [] text c = refl
append_to-same os (b ∷ path) text c = refl

-- An append touches the files and nothing else of the chat.
pub lmp_history_append-same :
    (os : Os) (speaker message : List ℕ) (c : Chat)
    → lmp_history_append os speaker message c
      ≡ record c { process = (lmp_history_append os speaker message c).process }
unfolding lmp_history_append
lmp_history_append-same os speaker message c =
    append_to-same os c.history_path (history_line speaker message) c

pub append-Keeps :
    (os : Os) (b : ℕ) (path : List ℕ) (ms : List Said) (m : Said) (c : Chat)
    → os.opens (b ∷ path) ≡ true
    → Keeps (b ∷ path) ms c
    → Keeps (b ∷ path) (ms ++ (m ∷ [])) (lmp_history_append os m.0 m.1 c)
      × ((lmp_history_append os m.0 m.1 c).process.prints ≡ c.process.prints)
append-Keeps os b path ms (speaker, message) c opens (here, kept) =
    let eq = lmp_history_append-eq os b path speaker message c opens here in
    let line = history_line speaker message in
    (
      (
        ap (λ d. d.history_path) eq ∙ here,
        ap (λ d. lookup (b ∷ path) d.process.files) eq
            ∙ lookup-write (b ∷ path) (b ∷ path) _ c.process.files
            ∙ rw (str_eq_refl (b ∷ path)) (
                ap (λ o. some (contents_of o ++ line)) kept
                ∙ ap some (sym (transcript-snoc ms (speaker, message)))),
      ),
      ap (λ d. d.process.prints) eq,
    )

append_all-Keeps :
    (os : Os) (b : ℕ) (path : List ℕ) (old ms : List Said) (c : Chat)
    → os.opens (b ∷ path) ≡ true
    → Keeps (b ∷ path) old c
    → Keeps (b ∷ path) (old ++ ms) (append_all os ms c)
      × ((append_all os ms c).process.prints ≡ c.process.prints)
unfolding append_all
append_all-Keeps os b path old [] c opens h =
    (subst (λ l. Keeps (b ∷ path) l c) (sym (append-nil old)) h, refl)
append_all-Keeps os b path old ((speaker, message) ∷ ms) c opens h =
    let m : Said = (speaker, message) in
    let (kept, quiet) = append-Keeps os b path old m c opens h in
    let (all, quiet') =
      append_all-Keeps os b path (old ++ (m ∷ [])) ms (lmp_history_append os speaker message c)
        opens kept in
    (
      subst (λ l. Keeps (b ∷ path) l (append_all os (m ∷ ms) c)) (append_assoc old (m ∷ []) ms) all,
      quiet' ∙ quiet,
    )

load-Keeps :
    (b : ℕ) (path : List ℕ) (ms : List Said) (c : Chat)
    → Keeps (b ∷ path) ms c
    → All IsSaid ms
    → (lmp_history_load c).process.prints
      ≡ c.process.prints ++ (codes "\r\u{1b}[K" ∷ map line_of ms)
unfolding lmp_history_load load_from
load-Keeps b path ms c (here, kept) h =
    let clear : List ℕ = codes "\r\u{1b}[K" in
    ap (λ q. (load_from q c).process.prints) here
    ∙ rw (kept, load_from)
        (ap (λ p. p.prints) (print_lines-transcript ms (say clear c.process) h)
          ∙ append_assoc c.process.prints (clear ∷ []) (map line_of ms))

-- If the history file of a chat holds the lines of some messages and it opens, then after
-- lmp_history_append of further messages lmp_history_load prints the lines of all of them, one
-- text each, in their order, behind the text that clears the prompt. Names and messages have no
-- newline and no NUL and are together shorter than 500 bytes.
pub lmp_history_load-append_all :
    (os : Os) (b : ℕ) (path : List ℕ) (old ms : List Said) (c : Chat)
    → os.opens (b ∷ path) ≡ true
    → Keeps (b ∷ path) old c
    → All IsSaid old
    → All IsSaid ms
    → (lmp_history_load (append_all os ms c)).process.prints
      ≡ c.process.prints ++ (codes "\r\u{1b}[K" ∷ map line_of (old ++ ms))
lmp_history_load-append_all os b path old ms c opens h hold hms =
    let (kept, quiet) = append_all-Keeps os b path old ms c opens h in
    load-Keeps b path (old ++ ms) (append_all os ms c) kept (All-append IsSaid old ms hold hms)
    ∙ ap (λ p. p ++ (codes "\r\u{1b}[K" ∷ map line_of (old ++ ms))) quiet
