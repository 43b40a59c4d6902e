-- ===== src/Directory.antt =====
-- The directories of a user and of a group (directory_manager.c, and init_group_server of
-- group_server.c). Every array of these functions holds 512 bytes, but the 256 of `pusername`.
pub mod Paths
use socket_speak.Base.{
  ℕ, ◌+◌, ◌-◌, List, [], ◌∷◌, ◌++◌, Bool, true, false, ◌==◌, Option, none, some, ltb, leb,
  if◌then◌else◌, length, take, codes,
}
use socket_speak.Process.{
  Os, Process, Result, done, exited, fault, ◌>>=◌, ◌>>◌, fits, lookup, write,
}

-- strncat(buffer, text, size - strlen(buffer) - 1)
abbrev strncat : ℕ → List ℕ → List ℕ → List ℕ
strncat size buffer text = buffer ++ take (size - length buffer - 1) text

abbrev pub path_size : ℕ
path_size = 512

-- ROOT_DIRECTORY begins with "~/", which stands for HOME if that is set and not empty.
unfoldable pub get_root_directory : Os → List ℕ
get_root_directory os = elim os.home [
  | none ↦ codes "~/lmp/"
  | some [] ↦ codes "~/lmp/"
  | some (c ∷ cs) ↦
      strncat path_size (strncat path_size (strncat path_size [] (c ∷ cs)) (codes "/"))
        (codes "lmp/")
]

unfoldable pub make_directory : Os → List ℕ → Process → Result Process
make_directory os pathname p = do
  let command = codes "mkdir -p " ++ pathname
  fits path_size command
  let p' = record p { commands = p.commands ++ (command ∷ []) }
  if os.runs command then done (record p' { made_directory = true }) else exited

unfoldable pub set_user_directory : Os → Process → Result Process
set_user_directory os p = do
  let path = get_root_directory os ++ p.pusername
  fits path_size path
  done (record p { user_directory = path; made_directory = false })

unfoldable pub init_user_directory : Os → Process → Result Process
unfolding make_directory
init_user_directory os p = if p.made_directory then done p else make_directory os p.user_directory p

set_if_empty : Os → List ℕ → Process → Result Process
unfolding set_user_directory
set_if_empty os [] p = set_user_directory os p
set_if_empty os (c ∷ cs) p = done p

-- The result is the array itself: the callers read, and may change, `user_directory`.
unfoldable pub get_user_directory : Os → Process → Result Process
unfolding set_if_empty init_user_directory
get_user_directory os p = do q ← set_if_empty os p.user_directory p; init_user_directory os q

unfoldable pub set_program_username : Os → List ℕ → Process → Result Process
unfolding set_user_directory
set_program_username os username p = do
  fits 256 (username ++ codes "/")
  set_user_directory os (record p { pusername = username ++ codes "/" })

-- The path that `open_file_in_user_directory` opens.
unfoldable pub path_in_user_directory : Os → List ℕ → Process → Result (List ℕ × Process)
unfolding get_user_directory
path_in_user_directory os filename p = do
  q ← get_user_directory os p
  fits path_size (q.user_directory ++ filename)
  done (q.user_directory ++ filename, q)

-- open_file_in_user_directory(filename, "r") and the reading of the file, if it opens.
unfoldable pub read_user_file : Os → List ℕ → Process → Result (Option (List ℕ) × Process)
unfolding path_in_user_directory
read_user_file os filename p = do
  (path, q) ← path_in_user_directory os filename p
  done (lookup path q.files, q)

-- The same with "w": whether it opens, and the file with its new contents.
unfoldable pub write_user_file : Os → List ℕ → List ℕ → Process → Result (Bool × Process)
unfolding path_in_user_directory
write_user_file os filename contents p = do
  (path, q) ← path_in_user_directory os filename p
  if os.opens path
      then done (true, record q { files = write path contents q.files })
      else done (false, q)

-- The path of a group's directory, which is made.
unfoldable pub init_group_server_directory : Os → List ℕ → ℕ → Process → Result (List ℕ × Process)
unfolding make_directory
init_group_server_directory os uid group_dir_size p =
    let root = get_root_directory os in
    let group_dir = root ++ (codes "/server/" ++ uid) in
    if ltb group_dir_size (length root + 8 + length uid + 1)
    then exited
    else make_directory os group_dir p >>= λ q. done (group_dir, q)

last_byte : List ℕ → ℕ
last_byte [] = 0
last_byte (c ∷ []) = c
last_byte (c ∷ d ∷ cs) = last_byte (d ∷ cs)

-- The history file of a group: its path, empty if that is too long for its array.
unfoldable pub init_group_server : Os → List ℕ → Process → Result (List ℕ × Process)
unfolding init_group_server_directory last_byte
init_group_server os group_uid p = do
  (made, q) ← init_group_server_directory os group_uid path_size p
  let group_dir = if last_byte made == b'/' then made else made ++ codes "/"
  fits path_size group_dir
  let path = group_dir ++ codes "history.txt"
  done (if leb path_size (length path) then [] else path, q)
