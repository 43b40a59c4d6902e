-- ===== src/Uid.antt =====
-- The user id (uid.c): `get_uid` reads uid.txt in the user's directory, or makes an id and writes it.
-- The file, whether it opens for writing, and `rand` are parameters.
use socket_speak.Base.{
  ℕ, zero, suc, ◌+◌, ◌-◌, ◌/◌, ◌%◌, ◌≤◌, ◌<◌, ◌≡◌, refl, ap, ◌∙◌, List, [], ◌∷◌, Bool, true, false,
  ◌&&◌, ◌||◌, Option, none, some, leb, ltb, ◌==◌, if◌then◌else◌, length, IsString, arith,
}

-- isspace and isxdigit in the C locale.
unfoldable pub is_space : ℕ → Bool
is_space c = c == b' ' || (leb 9 c && leb c 13)

unfoldable pub is_xdigit : ℕ → Bool
is_xdigit c = (leb b'0' c && leb c b'9') || (leb b'A' c && leb c b'F') || (leb b'a' c && leb c b'f')

-- The loop of `uid_string_valid` over the next `n` characters, and the test for the NUL behind them.
check_digits : ℕ → List ℕ → Bool
check_digits zero [] = true
check_digits zero (b ∷ bs) = false
check_digits (suc n) [] = false
check_digits (suc n) (b ∷ bs) = is_xdigit b && check_digits n bs

unfoldable pub uid_string_valid : List ℕ → Bool
unfolding check_digits
uid_string_valid s = check_digits 8 s

hex_digit : ℕ → ℕ
hex_digit d = if ltb d 10 then b'0' + d else b'A' + (d - 10)

-- `%08X` of a number below 2^32.
unfoldable pub uid_int_to_hex : ℕ → List ℕ
unfolding hex_digit
uid_int_to_hex n =
    hex_digit (n / 268435456 % 16)
    ∷ hex_digit (n / 16777216 % 16)
    ∷ hex_digit (n / 1048576 % 16)
    ∷ hex_digit (n / 65536 % 16)
    ∷ hex_digit (n / 4096 % 16)
    ∷ hex_digit (n / 256 % 16)
    ∷ hex_digit (n / 16 % 16)
    ∷ hex_digit (n % 16)
    ∷ []

-- `r` is what `rand` returns.
unfoldable pub generate_uid : ℕ → ℕ
generate_uid r = r % (2147483647 - 268435456) + 268435456

-- fscanf with `%8s`: blanks are skipped, then at most 8 characters are taken up to the next blank.
unfoldable pub skip_space : List ℕ → List ℕ
skip_space [] = []
skip_space (b ∷ bs) = let rest = skip_space bs in if is_space b then rest else b ∷ bs

unfoldable pub read_token : ℕ → List ℕ → List ℕ
read_token zero bs = []
read_token (suc n) [] = []
read_token (suc n) (b ∷ bs) = let rest = read_token n bs in if is_space b then [] else b ∷ rest

-- `hex_uid` once the file is read: empty if it does not open or holds no word.
unfoldable pub stored_uid : Option (List ℕ) → List ℕ
unfolding skip_space read_token
stored_uid none = []
stored_uid (some contents) = read_token 8 (skip_space contents)

-- The uid and the file afterwards; `none` is the exit when the file cannot be written.
unfoldable pub get_uid : Option (List ℕ) → Bool → ℕ → Option (List ℕ × Option (List ℕ))
get_uid file writable r =
    let made = uid_int_to_hex (generate_uid r) in
    if uid_string_valid (stored_uid file)
    then some (stored_uid file, file)
    else if writable
    then some (made, some made)
    else none

hex_digit_valid : (d : ℕ) → is_xdigit (hex_digit (d % 16)) ≡ true
unfolding is_xdigit hex_digit
hex_digit_valid d = ground arith

pub made_valid : (n : ℕ) → uid_string_valid (uid_int_to_hex n) ≡ true
unfolding uid_string_valid uid_int_to_hex check_digits
made_valid n = simp hex_digit_valid

xdigit_no_space : (c : ℕ) → is_xdigit c ≡ true → is_space c ≡ false
unfolding is_xdigit is_space
xdigit_no_space c h = ground arith

read_token_valid : (n : ℕ) (s : List ℕ) → check_digits n s ≡ true → read_token n s ≡ s
unfolding read_token check_digits
read_token_valid zero [] h = refl
read_token_valid zero (b ∷ bs) h = absurd (ground arith)
read_token_valid (suc n) [] h = absurd (ground arith)
read_token_valid (suc n) (b ∷ bs) h = ground (arith, xdigit_no_space b, read_token_valid n bs)

-- A file that holds a valid uid is read back as it is.
stored_uid_valid : (s : List ℕ) → uid_string_valid s ≡ true → stored_uid (some s) ≡ s
unfolding stored_uid uid_string_valid check_digits skip_space
stored_uid_valid [] h = absurd (ground arith)
stored_uid_valid (b ∷ bs) h =
    let first : skip_space (b ∷ bs) ≡ b ∷ bs = ground (arith, xdigit_no_space b) in
    ap (read_token 8) first ∙ read_token_valid 8 (b ∷ bs) h

-- The two ways in which `get_uid` returns: the uid is valid, and it is what the file then holds.
pub get_uid-cases :
    (file : Option (List ℕ)) (writable : Bool) (r : ℕ) (uid : List ℕ) (file' : Option (List ℕ))
    → get_uid file writable r ≡ some (uid, file')
    → (uid_string_valid uid ≡ true) × (stored_uid file' ≡ uid)
unfolding get_uid
get_uid-cases file writable r uid file' h =
    let made = uid_int_to_hex (generate_uid r) in
    ground
      (arith, h, made_valid (generate_uid r), stored_uid_valid made (made_valid (generate_uid r)))

-- If get_uid returns, its uid is valid, eight hexadecimal digits, and with the file that it leaves
-- every later call returns the same uid and leaves the file as it is, whatever rand says and
-- whether or not the file can be written.
pub get_uid-get_uid :
    (file : Option (List ℕ)) (writable again : Bool) (r r' : ℕ) (uid : List ℕ)
    (file' : Option (List ℕ))
    → get_uid file writable r ≡ some (uid, file')
    → (uid_string_valid uid ≡ true) × (get_uid file' again r' ≡ some (uid, file'))
get_uid-get_uid file writable again r r' uid file' h =
    let (valid, stored) = get_uid-cases file writable r uid file' h in
    (valid, unfold get_uid in rw (stored, valid) refl)

-- A valid uid has eight bytes and no NUL.
check_digits_text : (n : ℕ) (s : List ℕ) → check_digits n s ≡ true → (length s ≡ n) × IsString s
unfolding check_digits is_xdigit
check_digits_text zero [] h = (refl, tt)
check_digits_text zero (b ∷ bs) h = absurd (ground arith)
check_digits_text (suc n) [] h = absurd (ground arith)
check_digits_text (suc n) (b ∷ bs) h =
    let (size, clean) = check_digits_text n bs (ground arith) in
    (ap suc size, (ground arith, clean))

pub uid_string_valid_text : (s : List ℕ) → uid_string_valid s ≡ true → (length s ≡ 8) × IsString s
unfolding uid_string_valid
uid_string_valid_text s h = check_digits_text 8 s h

-- generate_uid returns at least 0x10000000 and less than INT_MAX, whatever rand returns.
pub generate_uid_bounds : (r : ℕ) → (268435456 ≤ generate_uid r) × (generate_uid r < 2147483647)
unfolding generate_uid
generate_uid_bounds r = ground arith
