-- ===== src/Chat/Nick.antt =====
-- The files that keep the nicknames (lmp.c).
use socket_speak.Base.{ℕ, ◌++◌, List, [], ◌∷◌, Bool, Option, none, some, codes}
use socket_speak.Process.{Os, Process, Result, done, ◌>>=◌, ◌>>◌, fits}
use socket_speak.Directory.{read_user_file, write_user_file}
use socket_speak.Uid.{skip_space, read_token}

unfoldable pub lmp_save_nick : Os → List ℕ → Process → Result (Bool × Process)
lmp_save_nick os nick p = write_user_file os (codes "nick.txt") nick p

abbrev pub peer_file : List ℕ → List ℕ
peer_file peer_uid = codes "peers/" ++ (peer_uid ++ codes "/nick.txt")

unfoldable pub lmp_save_peer_nick : Os → List ℕ → List ℕ → Process → Result (Bool × Process)
lmp_save_peer_nick os peer_uid nick p = do
  fits 32 (peer_file peer_uid)
  write_user_file os (peer_file peer_uid) nick p

-- fscanf with "%63s" into an array of 32 bytes: without a word in the file the array stays.
unfoldable pub scan_nick : List ℕ → Option (List ℕ) → Result (List ℕ)
unfolding skip_space read_token
scan_nick nick none = done nick
scan_nick nick (some contents) = elim (read_token 63 (skip_space contents)) [
  | [] ↦ done nick
  | b ∷ word ↦ fits 32 (b ∷ word) >> done (b ∷ word)
]

-- The nickname that is kept for a peer, or the one that is given.
unfoldable pub lmp_load_peer_nick : Os → List ℕ → List ℕ → Process → Result (List ℕ × Process)
unfolding scan_nick
lmp_load_peer_nick os peer_uid nick p = do
  fits 32 (peer_file peer_uid)
  (contents, q) ← read_user_file os (peer_file peer_uid) p
  word ← scan_nick nick contents
  done (word, q)

-- The start of `chat_loop`: the own nickname, "You" if none is kept.
unfoldable pub load_my_nick : Os → Process → Result (List ℕ × Process)
unfolding scan_nick
load_my_nick os p = do
  (contents, q) ← read_user_file os (codes "nick.txt") p
  word ← scan_nick (codes "You") contents
  done (word, q)
