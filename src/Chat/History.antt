-- ===== src/Chat/History.antt =====
-- The state of a chat (LMPContext) and its history file (lmp.c).
use socket_speak.Base.{
  ℕ, List, [], ◌∷◌, ◌++◌, Bool, true, false, none, some, if◌then◌else◌, codes, fgets_lines, cstr,
}
use socket_speak.Process.{
  Os, Process, Result, done, exited, ◌>>=◌, ◌>>◌, fits, say, lookup, contents_of, write,
}
use socket_speak.Directory.{get_user_directory}

-- LMPContext, `user_group_MODE` of base_commands.c, the frames that were sent, and the process.
pub record Chat : Type 0 where
  pub peer_nick : List ℕ
  pub my_nick : List ℕ
  pub my_uid : List ℕ
  pub peer_uid : List ℕ
  pub peer_uid_ready : Bool
  pub peer_dir : List ℕ
  pub history_path : List ℕ
  pub history_loaded : Bool
  pub user_group_mode : Bool
  pub sends : List (ℕ × List ℕ)
  pub process : Process

abbrev pub print : List ℕ → Chat → Chat
print text c = record c { process = say text c.process }

-- fopen(path, "a") and fprintf: whether the file opens.
unfoldable pub append_file : Os → List ℕ → List ℕ → Process → Bool × Process
append_file os path text p =
    if os.opens path
    then (true, record p { files = write path (contents_of (lookup path p.files) ++ text) p.files })
    else (false, p)

unfoldable pub lmp_make_dir : Os → List ℕ → Process → Result Process
lmp_make_dir os pathname p = do
  let command = codes "mkdir -p " ++ pathname
  fits 512 command
  if os.runs command then done (record p { commands = p.commands ++ (command ∷ []) }) else exited

unfoldable pub prepare_with : Os → List ℕ → Chat → Result Chat
unfolding lmp_make_dir
prepare_with os [] c = done (record c { peer_dir = []; history_path = [] })
prepare_with os (u ∷ uid) c = do
  p ← get_user_directory os c.process
  let peers = p.user_directory ++ codes "peers/"
  fits 256 peers
  q ← lmp_make_dir os peers p
  let peer_dir = peers ++ ((u ∷ uid) ++ codes "/")
  fits 256 peer_dir
  r ← lmp_make_dir os peer_dir q
  let path = peer_dir ++ codes "history.txt"
  fits 256 path
  done (record c { process = r; peer_dir = peer_dir; history_path = path })

unfoldable pub lmp_history_prepare : Os → Chat → Result Chat
unfolding prepare_with
lmp_history_prepare os c = prepare_with os c.peer_uid c

unfoldable pub print_lines : List (List ℕ) → Process → Process
print_lines [] p = p
print_lines (line ∷ lines) p = print_lines lines (say (cstr line) p)

unfoldable pub load_from : List ℕ → Chat → Chat
unfolding print_lines
load_from [] c = c
load_from (b ∷ path) c = elim (lookup (b ∷ path) c.process.files) [
  | none ↦ c
  | some contents ↦ record c {
    process = print_lines (fgets_lines 512 contents) (say (codes "\r\u{1b}[K") c.process);
  }
]

unfoldable pub lmp_history_load : Chat → Chat
unfolding load_from
lmp_history_load c = load_from c.history_path c

-- The line of one message.
abbrev pub history_line : List ℕ → List ℕ → List ℕ
history_line speaker message = b'[' ∷ (speaker ++ (codes "]: " ++ (message ++ codes "\n")))

unfoldable pub append_to : Os → List ℕ → List ℕ → Chat → Chat
append_to os [] text c = c
append_to os (b ∷ path) text c = record c { process = (append_file os (b ∷ path) text c.process).1 }

-- The callers do not look at what it returns.
unfoldable pub lmp_history_append : Os → List ℕ → List ℕ → Chat → Chat
unfolding append_to append_file
lmp_history_append os speaker message c =
    append_to os c.history_path (history_line speaker message) c
