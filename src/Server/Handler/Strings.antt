-- ===== src/Server/Handler/Strings.antt =====
-- The strings of a member that `handle_client_data` reads (group_server_comms.c): with "%s" and
-- strcmp, up to a NUL, and an array without one is read behind its end.
use socket_speak.Base.{
  ℕ, ◌≡◌, refl, List, Bool, true, false, ◌&&◌, not, length, ◌==◌, if◌then◌else◌, contains, codes,
  cstr, str_eq, arith,
}
use socket_speak.Lmp.Code
use socket_speak.Server.State.{Server, GroupMember}
use socket_speak.Server.Handler.Hangman.{is_initial, is_update, is_player}

-- A NUL stands in the array.
abbrev pub has_nul : List ℕ → Bool
has_nul field = contains field 0

-- Both strings of a member end in their arrays.
abbrev pub is_printable : GroupMember → Bool
is_printable m = has_nul m.uid && has_nul m.nickname

-- LMP_MSG reads the uid, the commands of the game where they use it.
abbrev pub reads_uid : ℕ → List ℕ → Server → Bool
reads_uid type text s =
    if type == Code.msg
    then true
    else if type == Code.grp_hangman
    then if str_eq text (codes "start")
      then is_initial s.hangman.state
      else if str_eq text (codes "exit")
      then true
      else str_eq text (codes "join") && not (is_initial s.hangman.state)
    else false

-- LMP_MSG reads the nickname for a guess, the other cases at once.
abbrev pub reads_nickname : ℕ → List ℕ → GroupMember → Server → Bool
reads_nickname type text m s =
    if type == Code.msg
    then is_player s (cstr m.uid) && (not (is_update s.hangman.state) && length text == 1)
    else true

-- Every array that is read has its NUL.
unfoldable pub legible : ℕ → List ℕ → GroupMember → Server → Bool
legible type text m s =
    (if reads_uid type text s then has_nul m.uid else true)
    && (if reads_nickname type text m s then has_nul m.nickname else true)

pub legible_idle :
    (text : List ℕ) (m : GroupMember) (s : Server)
    → is_player s (cstr m.uid) ≡ false
    → has_nul m.uid ≡ true
    → legible Code.msg text m s ≡ true
unfolding legible
legible_idle text m s idle ended = rw (idle, ended) refl

pub legible-is_printable :
    (type : ℕ) (text : List ℕ) (m : GroupMember) (s : Server)
    → is_printable m ≡ true
    → legible type text m s ≡ true
unfolding legible
legible-is_printable type text m s h =
    both (reads_uid type text s) (reads_nickname type text m s) (has_nul m.uid) (has_nul m.nickname)
      h
  where
    both :
        (a b c d : Bool)
        → (c && d) ≡ true
        → ((if a then c else true) && (if b then d else true)) ≡ true
    both a b true true h = ground arith
    both a b true false h = ground arith
    both a b false d h = ground arith
