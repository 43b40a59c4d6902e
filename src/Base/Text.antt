-- ===== src/Base/Text.antt =====
-- C text. A byte is a number below 256, and a `char` array that holds a string is the list of the
-- bytes before its first NUL.
use Prim.Native.Nat.{ℕ, zero, suc, ◌+◌, ◌-◌, ◌/◌, ◌%◌, ◌<◌}
use Prim.Native.Char.{code}
use Prim.Native.String.{String}
use mathlib.Core.Path.{◌≡◌, refl, ap, ◌∙◌}
use mathlib.Core.Logic.{◌↔◌, ◌≢◌}
use mathlib.Core.Bool.{Bool, true, false, ◌&&◌, ◌||◌}
use mathlib.Core.List.{List, [], ◌∷◌, ◌++◌, append_assoc}
use native.Mathlib.Omega.{arith}
use socket_speak.Base.Lists.{length, length-take, take, replicate, All}
use socket_speak.Base.Tests.{leb, ◌==◌, if◌then◌else◌}

abbrev pub IsByte : ℕ → Type 0
IsByte b = b < 256

-- The bytes of a literal.
abbrev pub codes : String → List ℕ
codes String.[] = []
codes (String.◌∷◌ c s) = code c ∷ codes s

-- What a C string function sees of an array: the bytes before the first NUL.
unfoldable pub cstr : List ℕ → List ℕ
cstr [] = []
cstr (b ∷ bs) = if b == 0 then [] else b ∷ cstr bs

-- strncpy(field, text, size - 1) and the NUL behind it: the `size` bytes of the field.
unfoldable pub strncpy_field : ℕ → List ℕ → List ℕ
strncpy_field size text =
    let kept = take (size - 1) text in kept ++ replicate (size - length kept) 0

-- The common idiom that drops a final newline.
unfoldable pub strip_newline : List ℕ → List ℕ
strip_newline [] = []
strip_newline (b ∷ []) = if b == b'\n' then [] else b ∷ []
strip_newline (b ∷ c ∷ bs) = b ∷ strip_newline (c ∷ bs)

-- The lines that repeated calls `fgets(line, size, file)` return: each ends after a newline, after
-- `size - 1` bytes or with the file. `room` is what the current line may still take.
lines_loop : ℕ → ℕ → List ℕ → List ℕ → List (List ℕ)
lines_loop size room line [] = elim line [ [] ↦ [] | c ∷ cs ↦ (c ∷ cs) ∷ [] ]
lines_loop size room line (b ∷ bs) =
    let line' : List ℕ = line ++ (b ∷ []) in
    let next = lines_loop size (size - 1) [] bs in
    let more = lines_loop size (room - 1) line' bs in
    if b == b'\n' || leb room 1 then line' ∷ next else more

unfoldable pub fgets_lines : ℕ → List ℕ → List (List ℕ)
unfolding lines_loop
fgets_lines size bytes = lines_loop size (size - 1) [] bytes

-- strcmp(a, b) == 0
unfoldable pub str_eq : List ℕ → List ℕ → Bool
str_eq [] [] = true
str_eq [] (b ∷ bs) = false
str_eq (a ∷ as') [] = false
str_eq (a ∷ as') (b ∷ bs) = a == b && str_eq as' bs

-- isalpha and tolower in the C locale.
unfoldable pub is_upper : ℕ → Bool
is_upper c = leb b'A' c && leb c b'Z'

unfoldable pub is_lower : ℕ → Bool
is_lower c = leb b'a' c && leb c b'z'

unfoldable pub is_alpha : ℕ → Bool
unfolding is_upper is_lower
is_alpha c = is_upper c || is_lower c

unfoldable pub to_lower : ℕ → ℕ
unfolding is_upper
to_lower c = if is_upper c then c + 32 else c

-- Is the byte in the list?
unfoldable pub contains : List ℕ → ℕ → Bool
contains [] c = false
contains (x ∷ xs) c = x == c || contains xs c

contains-append : (xs ys : List ℕ) (c : ℕ) → contains ys c ≡ true → contains (xs ++ ys) c ≡ true
unfolding contains
contains-append [] ys c h = h
contains-append (x ∷ xs) ys c h = ground (arith, contains-append xs ys c h)

pub strncpy_field-ends :
    (size : ℕ) (text : List ℕ) → 0 < size → contains (strncpy_field size text) 0 ≡ true
unfolding strncpy_field contains
strncpy_field-ends size text h =
    let kept = take (size - 1) text in
    let short : length kept < size = omega (arith, length-take (size - 1) text) in
    contains-append kept (replicate (size - length kept) 0) 0
      (nul (size - length kept) (omega arith))
  where
    nul : (n : ℕ) → 0 < n → contains (replicate n 0) 0 ≡ true
    nul zero h = elim h [ ]
    nul (suc n) h = refl

-- printf's %d at a number that is not negative.
decimal_loop : ℕ → ℕ → List ℕ → List ℕ
decimal_loop zero n out = out
decimal_loop (suc fuel) n out =
    let digits : List ℕ = (b'0' + n % 10) ∷ out in
    let rest = decimal_loop fuel (n / 10) digits in if n / 10 == 0 then digits else rest

unfoldable pub decimal : ℕ → List ℕ
unfolding decimal_loop
decimal n = decimal_loop (suc n) n []

pub str_eq_iff : (a b : List ℕ) → (str_eq a b ≡ true) ↔ (a ≡ b)
unfolding str_eq
str_eq_iff [] [] = (λ _. refl, λ _. refl)
str_eq_iff [] (b ∷ bs) = (λ h. cc, λ h. cc)
str_eq_iff (a ∷ as') [] = (λ h. cc, λ h. cc)
str_eq_iff (a ∷ as') (b ∷ bs) =
    (λ h. ground (arith, (str_eq_iff as' bs).0), λ h. ground (arith, (str_eq_iff as' bs).1))

pub str_eq_refl : (a : List ℕ) → str_eq a a ≡ true
str_eq_refl a = (str_eq_iff a a).1 refl

-- A line's text: no newline within.
abbrev pub IsLine : List ℕ → Type 0
IsLine = All (λ b. b ≢ b'\n')

lines_loop-line :
    (size room : ℕ) (line l rest : List ℕ)
    → IsLine l
    → length l < room
    → lines_loop size room line (l ++ (b'\n' ∷ rest))
      ≡ (line ++ (l ++ (b'\n' ∷ []))) ∷ lines_loop size (size - 1) [] rest
unfolding lines_loop
lines_loop-line size room line [] rest clean fits = refl
lines_loop-line size room line (b ∷ l) rest clean fits =
    rw (more_room room fits, not_newline b clean.0)
      (lines_loop-line size (room - 1) (line ++ (b ∷ [])) l rest clean.1 (omega arith)
        ∙ ap (λ t. t ∷ lines_loop size (size - 1) [] rest) (append_assoc line (b ∷ []) _))
  where
    more_room : (n : ℕ) → length (b ∷ l) < n → leb n 1 ≡ false
    more_room n h = ground arith

    not_newline : (c : ℕ) → c ≢ b'\n' → (c == b'\n') ≡ false
    not_newline c h = ground arith

-- A line that fits into the buffer is read whole, with its newline, and the next one follows.
pub fgets_lines-line :
    (size : ℕ) (l rest : List ℕ)
    → IsLine l
    → length l + 1 < size
    → fgets_lines size (l ++ (b'\n' ∷ rest)) ≡ (l ++ (b'\n' ∷ [])) ∷ fgets_lines size rest
unfolding fgets_lines
fgets_lines-line size l rest clean fits =
    lines_loop-line size (size - 1) [] l rest clean (omega arith)

-- A string: no NUL within.
abbrev pub IsString : List ℕ → Type 0
IsString = All (λ b. b ≢ 0)

pub cstr_self : (s : List ℕ) → IsString s → cstr s ≡ s
unfolding cstr
cstr_self [] clean = refl
cstr_self (b ∷ bs) clean = ground (arith, cstr_self bs clean.1)

pub fgets_lines_nil : (size : ℕ) → fgets_lines size [] ≡ []
unfolding fgets_lines
fgets_lines_nil size = refl

-- What is read from a buffer that holds a string and its NUL.
pub cstr_end : (s rest : List ℕ) → IsString s → cstr (s ++ (0 ∷ rest)) ≡ s
unfolding cstr
cstr_end [] rest h = refl
cstr_end (b ∷ s) rest h = ground (arith, cstr_end s rest h.1)
