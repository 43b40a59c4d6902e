-- ===== src/Server/Pollset.antt =====
-- The poll array and the members beside it: `add_to_pfds`, `del_from_pfds` and
-- `handle_new_connection` (group_server_comms.c). `none` is an array access out of range.
use socket_speak.Base.{
  ℕ, ◌-◌, ◌*◌, List, [], ◌∷◌, ◌++◌, Option, none, some, length, get_elem?, set, take, ltb, ◌==◌,
  if◌then◌else◌,
}
use socket_speak.Base.Int.{pred_ℤ}
use socket_speak.Server.State.{Server}

unfoldable pub add_to_pfds : ℕ → Server → Server
add_to_pfds newfd s = record s {
  fd_size = if length s.pfds == s.fd_size then s.fd_size * 2 else s.fd_size;
  pfds = s.pfds ++ (newfd ∷ []);
}

-- `accept` gives the descriptor, or fails.
unfoldable pub handle_new_connection : Option ℕ → Server → Server
unfolding add_to_pfds
handle_new_connection none s = s
handle_new_connection (some newfd) s = add_to_pfds newfd s

-- `array[i] = array[j]`
unfoldable pub copy_elem {ℓ} : {A : Type ℓ} → List A → ℕ → ℕ → Option (List A)
copy_elem xs i j = elim (get_elem? xs j) [
  | none ↦ none
  | some x ↦ if ltb i (length xs) then some (set xs i x) else none
]

infixl 5 ◌>>=◌
abbrev ◌>>=◌ {ℓ κ} : {A : Type ℓ} {B : Type κ} → Option A → (A → Option B) → Option B
none >>= f = none
some a >>= f = f a

-- `i` is the index of a client, so it is at least 1 and there are at least two descriptors.
unfoldable pub del_from_pfds : ℕ → Server → Option Server
unfolding copy_elem
del_from_pfds i s = do
  pfds ← copy_elem s.pfds i (length s.pfds - 1)
  members ← copy_elem s.group.members (i - 1) (length s.pfds - 2)
  some (record s {
    pfds = take (length s.pfds - 1) pfds;
    group = record s.group { members = members; member_count = pred_ℤ s.group.member_count };
  })
