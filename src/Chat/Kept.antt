-- ===== src/Chat/Kept.antt =====
-- What a peer's uid and a nickname turn into on the disk.
use socket_speak.Base.{
  ℕ, zero, suc, ◌+◌, ◌≤◌, ◌<◌, ◌≡◌, refl, ap, ◌∙◌, List, [], ◌∷◌, ◌++◌, true, false, some, lt→ltb,
  length, length-append, codes, All, str_eq_refl, arith,
}
use socket_speak.Process.{Os, Process, Result, done, ◌>>=◌, lookup, write, lookup-write}
use socket_speak.Directory.{get_user_directory, read_user_file, write_user_file}
use socket_speak.Directory.Paths.{IsIn, get_user_directory-IsIn, path_in_user_directory-IsIn, mkdir}
use socket_speak.Uid.{is_space, skip_space, read_token}
use socket_speak.Chat.History.{Chat, lmp_make_dir, prepare_with, lmp_history_prepare}
use socket_speak.Chat.Nick.{lmp_save_nick, load_my_nick, scan_nick}

-- A word without blanks.
abbrev pub IsWordText : List ℕ → Type 0
IsWordText = All (λ b. is_space b ≡ false)

-- What may follow a word in a nickname: nothing, or a blank and any text.
abbrev pub IsTail : List ℕ → Type 0
IsTail [] = Unit {0}
IsTail (b ∷ bs) = is_space b ≡ true

read_token-word :
    (n : ℕ) (word rest : List ℕ)
    → IsWordText word
    → IsTail rest
    → length word ≤ n
    → read_token n (word ++ rest) ≡ word
unfolding read_token
read_token-word zero [] rest h t short = refl
read_token-word zero (b ∷ word) rest h t short = absurd (omega arith)
read_token-word (suc n) [] [] h t short = refl
read_token-word (suc n) [] (b ∷ rest) h t short = ground arith
read_token-word (suc n) (b ∷ word) rest h t short =
    ground (arith, read_token-word n word rest h.1 t (omega arith))

skip_space-word : (b : ℕ) (bs : List ℕ) → is_space b ≡ false → skip_space (b ∷ bs) ≡ b ∷ bs
unfolding skip_space
skip_space-word b bs h = ground arith

scan_nick-word :
    (old : List ℕ) (b : ℕ) (word rest : List ℕ)
    → IsWordText (b ∷ word)
    → IsTail rest
    → length (b ∷ word) < 32
    → scan_nick old (some ((b ∷ word) ++ rest)) ≡ done (b ∷ word)
unfolding scan_nick
scan_nick-word old b word rest bare tail fit =
    let scanned : read_token 63 (skip_space ((b ∷ word) ++ rest)) ≡ b ∷ word =
      ap (read_token 63) (skip_space-word b (word ++ rest) bare.0)
      ∙ read_token-word 63 (b ∷ word) rest bare tail (omega arith) in
    rw (scanned, scan_nick) (rw (lt→ltb (length (b ∷ word)) 32 fit) refl)

-- A nickname that lmp_save_nick saves, the file being open, comes back when a chat starts if it is
-- a word shorter than 32 bytes; of a nickname with a blank only the first word comes back. The
-- directory of the user is made and the path shorter than 512 bytes.
pub load_my_nick-lmp_save_nick :
    (os : Os) (c : ℕ) (cs : List ℕ) (b : ℕ) (word rest : List ℕ) (p : Process)
    → IsIn (c ∷ cs) p
    → length ((c ∷ cs) ++ codes "nick.txt") < 512
    → os.opens ((c ∷ cs) ++ codes "nick.txt") ≡ true
    → IsWordText (b ∷ word)
    → IsTail rest
    → length (b ∷ word) < 32
    → (q : Process) × (lmp_save_nick os ((b ∷ word) ++ rest) p ≡ done (true, q))
      × (load_my_nick os q ≡ done (b ∷ word, q))
unfolding lmp_save_nick load_my_nick read_user_file write_user_file
load_my_nick-lmp_save_nick os c cs b word rest p h short opens bare tail fit =
    let path = (c ∷ cs) ++ codes "nick.txt" in
    let nick = (b ∷ word) ++ rest in
    let q : Process = record p { files = write path nick p.files } in
    let found : lookup path (write path nick p.files) ≡ some nick =
      lookup-write path path nick p.files ∙ rw (str_eq_refl path) refl in
    let after : List ℕ → Result (List ℕ × Process) = λ w. done (w, q) in
    (
      q,
      rw (path_in_user_directory-IsIn os c cs (codes "nick.txt") p h short, opens) refl,
      rw
          (path_in_user_directory-IsIn os c cs (codes "nick.txt") q
            (record { here = h.here; made = h.made }) short)
          (ap (λ o. scan_nick (codes "You") o >>= after) found
            ∙ ap (λ r. r >>= after) (scan_nick-word (codes "You") b word rest bare tail fit)),
    )

-- The directory of a peer.
abbrev pub peers_of : List ℕ → List ℕ
peers_of directory = directory ++ codes "peers/"

abbrev pub peer_dir_of : List ℕ → List ℕ → List ℕ
peer_dir_of directory uid = peers_of directory ++ (uid ++ codes "/")

lmp_make_dir-eq :
    (os : Os) (path : List ℕ) (p : Process)
    → os.runs (mkdir path) ≡ true
    → length path < 500
    → lmp_make_dir os path p ≡ done (record p { commands = p.commands ++ (mkdir path ∷ []) })
unfolding lmp_make_dir
lmp_make_dir-eq os path p runs short = ground arith

-- `prepare_with`, the directory being made.
prepare_with-eq :
    (os : Os) (u : ℕ) (us : List ℕ) (chat : Chat)
    → let d = chat.process.user_directory in
      get_user_directory os chat.process ≡ done chat.process
      → os.runs (mkdir (peers_of d)) ≡ true
      → os.runs (mkdir (peer_dir_of d (u ∷ us))) ≡ true
      → length (peers_of d) < 256
      → length (peer_dir_of d (u ∷ us)) < 256
      → length (peer_dir_of d (u ∷ us) ++ codes "history.txt") < 256
      → prepare_with os (u ∷ us) chat
        ≡ done (record chat {
          process = record chat.process {
            commands =
                (chat.process.commands ++ (mkdir (peers_of d) ∷ []))
                ++ (mkdir (peer_dir_of d (u ∷ us)) ∷ []);
          };
          peer_dir = peer_dir_of d (u ∷ us);
          history_path = peer_dir_of d (u ∷ us) ++ codes "history.txt";
        })
unfolding prepare_with
prepare_with-eq os u us chat here runs runs' short short' short'' =
    let d = chat.process.user_directory in
    let first = peers_of d in
    let second = peer_dir_of d (u ∷ us) in
    let made : Process = record chat.process {
      commands = chat.process.commands ++ (mkdir first ∷ []);
    } in
    rw
      (
        here,
        lt→ltb (length first) 256 short,
        lmp_make_dir-eq os first chat.process runs (omega arith),
        lt→ltb (length second) 256 short',
        lmp_make_dir-eq os second made runs' (omega arith),
        lt→ltb (length (second ++ codes "history.txt")) 256 short'',
      )
      refl

-- With the directory of the user made, `lmp_history_prepare` makes the two directories of the peer.
pub lmp_history_prepare-commands :
    (os : Os) (c : ℕ) (cs : List ℕ) (u : ℕ) (us : List ℕ) (chat : Chat)
    → IsIn (c ∷ cs) chat.process
    → chat.peer_uid ≡ u ∷ us
    → ((path : List ℕ) → os.runs (mkdir path) ≡ true)
    → length (peer_dir_of (c ∷ cs) (u ∷ us)) + 11 < 256
    → lmp_history_prepare os chat
      ≡ done (record chat {
        process = record chat.process {
          commands =
              (chat.process.commands ++ (mkdir (peers_of (c ∷ cs)) ∷ []))
              ++ (mkdir (peer_dir_of (c ∷ cs) (u ∷ us)) ∷ []);
        };
        peer_dir = peer_dir_of (c ∷ cs) (u ∷ us);
        history_path = peer_dir_of (c ∷ cs) (u ∷ us) ++ codes "history.txt";
      })
unfolding lmp_history_prepare
lmp_history_prepare-commands os c cs u us chat h uid runs short =
    let d = chat.process.user_directory in
    let dir = c ∷ cs in
    let size = length-append (peers_of dir) ((u ∷ us) ++ codes "/") in
    let size' = length-append (peer_dir_of dir (u ∷ us)) (codes "history.txt") in
    ap (λ w. prepare_with os w chat) uid
    ∙ prepare_with-eq os u us chat (get_user_directory-IsIn os c cs chat.process h) (runs _)
        (runs _) (rw h.here (omega arith)) (rw h.here (omega arith)) (rw h.here (omega arith))
    ∙ ap
        (λ e. done (record chat {
          process = record chat.process {
            commands =
                (chat.process.commands ++ (mkdir (peers_of e) ∷ []))
                ++ (mkdir (peer_dir_of e (u ∷ us)) ∷ []);
          };
          peer_dir = peer_dir_of e (u ∷ us);
          history_path = peer_dir_of e (u ∷ us) ++ codes "history.txt";
        }))
        h.here
