-- ===== src/Chat/Handshake.antt =====
-- The first message of a peer: its uid (`uid_recv`).
use socket_speak.Base.{
  ℕ, ◌≤◌, ◌<◌, ◌≡◌, refl, ap, subst, ◌∙◌, inl, inr, List, [], ◌∷◌, ◌++◌, Bool, true, false, none,
  lt→ltb, leb, if◌then◌else◌, length, length-append, length-take, codes, cstr, take, Option-cases,
  fgets_lines, arith,
}
use socket_speak.Process.{Os, Process, done, lookup, say}
use socket_speak.Directory.{read_user_file}
use socket_speak.Directory.Paths.{IsIn, path_in_user_directory-IsIn, mkdir}
use socket_speak.Lmp.Registry.{command_success}
use socket_speak.Chat.History.{Chat, print_lines, load_from, lmp_history_prepare, lmp_history_load}
use socket_speak.Chat.Nick.{peer_file, scan_nick, lmp_load_peer_nick}
use socket_speak.Chat.Handlers.{uid_recv}
use socket_speak.Chat.Kept.{peers_of, peer_dir_of, lmp_history_prepare-commands}

-- The uid that is taken from the message.
abbrev pub received_uid : List ℕ → ℕ → List ℕ
received_uid buf len = cstr (take (if leb len 8 then len else 8) buf)

length-cstr : (s : List ℕ) → length (cstr s) ≤ length s
unfolding cstr
length-cstr [] = omega arith
length-cstr (b ∷ bs) = ground (arith, length-cstr bs)

length-received : (buf : List ℕ) (len : ℕ) → length (received_uid buf len) ≤ 8
length-received buf len =
    let n : ℕ = if leb len 8 then len else 8 in
    ground (arith, length-cstr (take n buf), length-take n buf)

print_lines-commands : (ls : List (List ℕ)) (p : Process) → (print_lines ls p).commands ≡ p.commands
unfolding print_lines
print_lines-commands [] p = refl
print_lines-commands (l ∷ ls) p = print_lines-commands ls (say (cstr l) p)

-- Loading the history prints, and changes nothing else.
load_from-same :
    (path : List ℕ) (c : Chat)
    → load_from path c ≡ record c { process = (load_from path c).process }
unfolding load_from
load_from-same [] c = refl
load_from-same (b ∷ path) c = ground arith

load_from-commands :
    (path : List ℕ) (c : Chat) → (load_from path c).process.commands ≡ c.process.commands
unfolding load_from
load_from-commands [] c = refl
load_from-commands (b ∷ path) c = elim (Option-cases (lookup (b ∷ path) c.process.files)) [
  | inl absent ↦ rw (absent, load_from) refl
  | inr (contents, found) ↦
      rw (found, load_from)
        (print_lines-commands (fgets_lines 512 contents) (say (codes "\r\u{1b}[K") c.process))
]

lmp_load_peer_nick-none :
    (os : Os) (c : ℕ) (cs uid nick : List ℕ) (p : Process)
    → IsIn (c ∷ cs) p
    → length uid ≤ 8
    → length (c ∷ cs) < 300
    → lookup ((c ∷ cs) ++ peer_file uid) p.files ≡ none
    → lmp_load_peer_nick os uid nick p ≡ done (nick, p)
unfolding lmp_load_peer_nick read_user_file scan_nick
lmp_load_peer_nick-none os c cs uid nick p h short long absent =
    let size = length-append uid (codes "/nick.txt") in
    rw
      (
        lt→ltb (length (peer_file uid)) 32 (omega arith),
        path_in_user_directory-IsIn os c cs (peer_file uid) p h
            (omega (arith, length-append (c ∷ cs) (peer_file uid))),
        absent,
      )
      refl

-- The end of `uid_recv`.
abbrev loaded : Chat → Chat
loaded e = if e.history_loaded then e else record (lmp_history_load e) { history_loaded = true }

loaded_if :
    (b : Bool) (e : Chat)
    → e.history_loaded ≡ b
    → let f = if b then e else record (lmp_history_load e) { history_loaded = true } in
      (f.peer_uid ≡ e.peer_uid)
      × (f.history_path ≡ e.history_path)
      × (f.process.commands ≡ e.process.commands)
      × (f.history_loaded ≡ true)
unfolding lmp_history_load
loaded_if true e old = (refl, refl, refl, old)
loaded_if false e new =
    let same = load_from-same e.history_path e in
    (
      ap (λ d. d.peer_uid) same,
      ap (λ d. d.history_path) same,
      load_from-commands e.history_path e,
      refl,
    )

-- If a peer sends a non-empty uid, uid_recv succeeds and takes its first eight bytes, up to a NUL,
-- as they are: it runs mkdir -p on the directory of the peers and then on the directory that has
-- these bytes as its name, keeps the history path in it, and marks the history loaded and the uid
-- ready. The directory of the user is made and shorter than 200 bytes, mkdir succeeds, and no
-- nickname is kept for the peer.
pub uid_recv-commands :
    (os : Os) (c : ℕ) (cs : List ℕ) (u : ℕ) (us buf : List ℕ) (len : ℕ) (chat : Chat)
    → IsIn (c ∷ cs) chat.process
    → received_uid buf len ≡ u ∷ us
    → ((path : List ℕ) → os.runs (mkdir path) ≡ true)
    → length (c ∷ cs) < 200
    → lookup ((c ∷ cs) ++ peer_file (u ∷ us)) chat.process.files ≡ none
    → (d : Chat) × (uid_recv os buf len chat ≡ done (command_success, d))
      × (d.peer_uid ≡ u ∷ us)
      × (d.history_path ≡ peer_dir_of (c ∷ cs) (u ∷ us) ++ codes "history.txt")
      × (d.process.commands
          ≡ (chat.process.commands ++ (mkdir (peers_of (c ∷ cs)) ∷ []))
            ++ (mkdir (peer_dir_of (c ∷ cs) (u ∷ us)) ∷ []))
      × (d.peer_uid_ready ≡ true)
      × (d.history_loaded ≡ true)
unfolding uid_recv
uid_recv-commands os c cs u us buf len chat h uid runs long absent =
    let start : Chat = record chat { peer_uid = received_uid buf len } in
    let directory = c ∷ cs in
    let path = peer_dir_of directory (u ∷ us) in
    let few = length-received buf len in
    let eight : length (u ∷ us) ≤ 8 = subst (λ w. length w ≤ 8) uid few in
    let size = length-append (peers_of directory) ((u ∷ us) ++ codes "/") in
    let size' = length-append directory (codes "peers/") in
    let size'' = length-append (u ∷ us) (codes "/") in
    let prepared : Chat = record start {
      process = record chat.process {
        commands =
            (chat.process.commands ++ (mkdir (peers_of directory) ∷ [])) ++ (mkdir path ∷ []);
      };
      peer_dir = path;
      history_path = path ++ codes "history.txt";
    } in
    let eq : lmp_history_prepare os start ≡ done prepared =
      lmp_history_prepare-commands os c cs u us start h uid runs (omega arith) in
    let eq' =
      lmp_load_peer_nick-none os c cs (received_uid buf len) chat.peer_nick prepared.process
        (record { here = h.here; made = h.made }) few (omega arith)
        (ap (λ w. lookup (directory ++ peer_file w) chat.process.files) uid ∙ absent) in
    let (same_uid, same_path, quiet, told) = loaded_if prepared.history_loaded prepared refl in
    (
      record (loaded prepared) { peer_uid_ready = true },
      rw (eq, eq') refl,
      same_uid ∙ uid,
      same_path,
      quiet,
      refl,
      told,
    )
