-- ===== src/Process.antt =====
-- A user's process: the files that it reads and writes, the commands that it gives to system(3),
-- and the globals of directory_manager.c.
use socket_speak.Base.{
  ℕ, ◌≡◌, refl, List, [], ◌∷◌, ◌++◌, Bool, Option, none, some, ltb, if◌then◌else◌, length, str_eq,
  str_eq_iff, arith,
}

-- What the environment decides: getenv("HOME"), which commands succeed, which files open for
-- writing, and whether a send on the socket of the chat succeeds.
pub record Os : Type 0 where
  pub home : Option (List ℕ)
  pub runs : List ℕ → Bool
  pub opens : List ℕ → Bool
  pub sends : Bool

-- A file system: paths with contents.
abbrev pub Disk : Type 0
Disk = List (List ℕ × List ℕ)

unfoldable pub lookup : List ℕ → Disk → Option (List ℕ)
lookup path [] = none
lookup path ((p, c) ∷ files) = if str_eq p path then some c else lookup path files

unfoldable pub write : List ℕ → List ℕ → Disk → Disk
write path contents [] = (path, contents) ∷ []
write path contents ((p, c) ∷ files) =
    if str_eq p path then (path, contents) ∷ files else (p, c) ∷ write path contents files

-- A file that does not exist counts as empty.
abbrev pub contents_of : Option (List ℕ) → List ℕ
contents_of o = elim o [ none ↦ [] | some contents ↦ contents ]

pub lookup-write :
    (path other contents : List ℕ) (files : Disk)
    → lookup other (write path contents files)
      ≡ (if str_eq path other then some contents else lookup other files)
unfolding lookup write
lookup-write path other contents [] = refl
lookup-write path other contents ((p, c) ∷ files) = ground (
  arith,
  lookup-write path other contents files,
  str_eq_iff p path,
  str_eq_iff p other,
  str_eq_iff path other,
)

pub record Process : Type 0 where
  pub files : Disk
  pub commands : List (List ℕ)
  pub prints : List (List ℕ)
  pub pusername : List ℕ
  pub user_directory : List ℕ
  pub made_directory : Bool

-- A run ends well, by exit(3), with undefined behaviour (a write behind an array, a null pointer that
-- is read), or never.
pub data Result (A : Type 0) : Type 0 where
  done : A → Result A
  exited fault diverged : Result A

infixl 5 ◌>>=◌ ◌>>◌
abbrev pub ◌>>=◌ : {A B : Type 0} → Result A → (A → Result B) → Result B
done a >>= f = f a
exited >>= f = exited
fault >>= f = fault
diverged >>= f = diverged

abbrev pub ◌>>◌ : {B : Type 0} → Result (Unit {0}) → Result B → Result B
m >> k = m >>= λ _. k

-- A string that is written to an array of `size` bytes.
abbrev pub fits : ℕ → List ℕ → Result (Unit {0})
fits size text = if ltb (length text) size then done tt else fault

-- printf
abbrev pub say : List ℕ → Process → Process
say text p = record p { prints = p.prints ++ (text ∷ []) }
