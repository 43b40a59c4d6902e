-- ===== src/Server/Departure.antt =====
-- What `del_from_pfds` does to the group: the client leaves, and the others keep their members.
use mathlib.Core.List.{Perm}
use socket_speak.Base.{
  ◌+◌, length-set, length-take, ℕ, suc, ◌-◌, ◌≤◌, ◌<◌, ◌≡◌, refl, sym, ap, subst, ◌∙◌, List, [],
  ◌∷◌, some, arith, length, get_elem?, get_elem?-lt, set, take, drop,
}
use socket_speak.Base.Int.{pred_ℤ}
use socket_speak.Server.State.{Server, GroupMember}
use socket_speak.Server.Pollset.{copy_elem, del_from_pfds}
use socket_speak.Server.Handler.Frames.{Env, send_new_group_to_users}
use socket_speak.Server.Handler.Dispatch.{handle_hangup}
use socket_speak.Server.Synced.{Synced}
use socket_speak.Server.Clients.{
  zip, zip-set, zip-take, get_elem?-zip, length-zip, swap_remove-perm, clients,
}

removed :
    (fds : List ℕ) (ms : List GroupMember) (k n fd z : ℕ) (m zm : GroupMember)
    → length fds ≡ suc n
    → length fds ≤ length ms
    → get_elem? fds k ≡ some fd
    → get_elem? fds n ≡ some z
    → get_elem? ms k ≡ some m
    → get_elem? ms n ≡ some zm
    → Perm ((fd, m) ∷ zip (take n (set fds k z)) (set ms k zm)) (zip fds ms)
removed fds ms k n fd z m zm len fits efd ez em ezm =
    subst (λ w. Perm ((fd, m) ∷ w) (zip fds ms))
      (sym (zip-take n (set fds k z) (set ms k zm) ∙ ap (take n) (zip-set fds ms k z zm)))
      (swap_remove-perm (zip fds ms) k n (fd, m) (z, zm) (length-zip fds ms fits ∙ len)
        (get_elem?-zip fds ms k fd m efd em) (get_elem?-zip fds ms n z zm ez ezm))

copy_elem-eq :
    {A : Type 0} (xs : List A) (i j : ℕ) (x : A)
    → get_elem? xs j ≡ some x
    → i < length xs
    → copy_elem xs i j ≡ some (set xs i x)
unfolding copy_elem
copy_elem-eq xs i j x e h = ground arith

-- What `del_from_pfds` leaves, the two last entries given.
abbrev pub without : ℕ → ℕ → GroupMember → Server → Server
without i z zm s = record s {
  pfds = take (length s.pfds - 1) (set s.pfds i z);
  group = record s.group {
    members = set s.group.members (i - 1) zm;
    member_count = pred_ℤ s.group.member_count;
  };
}

pub del_from_pfds-eq :
    (i z : ℕ) (zm : GroupMember) (s : Server)
    → get_elem? s.pfds (length s.pfds - 1) ≡ some z
    → get_elem? s.group.members (length s.pfds - 2) ≡ some zm
    → i < length s.pfds
    → i - 1 < length s.group.members
    → del_from_pfds i s ≡ some (without i z zm s)
unfolding del_from_pfds
del_from_pfds-eq i z zm s ez ezm hi hm =
    rw (copy_elem-eq s.pfds i (length s.pfds - 1) z ez hi)
      (rw (copy_elem-eq s.group.members (i - 1) (length s.pfds - 2) zm ezm hm) refl)

clients-without :
    (s : Server) (p : ℕ) (fds : List ℕ) (k n z : ℕ) (zm : GroupMember)
    → s.pfds ≡ p ∷ fds
    → length fds ≡ suc n
    → clients (without (suc k) z zm s) ≡ zip (take n (set fds k z)) (set s.group.members k zm)
unfolding clients
clients-without s p fds k n z zm e len =
    let below : suc k - 1 ≡ k = omega arith in
    let size : length s.pfds - 1 ≡ suc n = rw e (omega (arith, len)) in
    let pfds : take (length s.pfds - 1) (set s.pfds (suc k) z) ≡ p ∷ take n (set fds k z) =
      ap (λ q. take q (set s.pfds (suc k) z)) size ∙ ap (λ q. take (suc n) (set q (suc k) z)) e in
    ap (λ q. zip (drop 1 q) (set s.group.members (suc k - 1) zm)) pfds
    ∙ ap (λ q. zip (take n (set fds k z)) (set s.group.members q zm)) below

clients-cons :
    (s : Server) (p : ℕ) (fds : List ℕ) → s.pfds ≡ p ∷ fds → clients s ≡ zip fds s.group.members
unfolding clients
clients-cons s p fds e = ap (λ q. zip (drop 1 q) s.group.members) e

-- The poll array afterwards: shorter by one, with the listener where it was.
pfds-without :
    (pfds : List ℕ) (p : ℕ) (fds : List ℕ) (k n z : ℕ)
    → pfds ≡ p ∷ fds
    → length fds ≡ suc n
    → (length (take (length pfds - 1) (set pfds (suc k) z)) ≡ suc n)
      × (get_elem? (take (length pfds - 1) (set pfds (suc k) z)) 0 ≡ some p)
pfds-without pfds p fds k n z e len =
    let size : length pfds - 1 ≡ suc n = rw e (omega (arith, len)) in
    let rest : take (length pfds - 1) (set pfds (suc k) z) ≡ p ∷ take n (set fds k z) =
      ap (λ q. take q (set pfds (suc k) z)) size ∙ ap (λ q. take (suc n) (set q (suc k) z)) e in
    (
      ap length rest ∙ omega (arith, length-take n (set fds k z), length-set fds k z),
      ap (λ q. get_elem? q 0) rest,
    )

-- The client behind `i` leaves; the others keep their members.
del_from_pfds-clients :
    (s : Server) (p : ℕ) (fds : List ℕ) (k n : ℕ)
    → s.pfds ≡ p ∷ fds
    → length fds ≡ suc n
    → k < length fds
    → length fds ≤ length s.group.members
    → (s' : Server) × (fd : ℕ) × (m : GroupMember) × (del_from_pfds (suc k) s ≡ some s')
      × (get_elem? (clients s) k ≡ some (fd, m))
      × Perm ((fd, m) ∷ clients s') (clients s)
      × (s'.hangman ≡ s.hangman)
      × (length s'.pfds ≡ suc n)
      × (get_elem? s'.pfds 0 ≡ some p)
del_from_pfds-clients s p fds k n e len inside fits =
    let (fd, efd) = get_elem?-lt fds k inside in
    let (z, ez) = get_elem?-lt fds n (omega arith) in
    let (m, em) = get_elem?-lt s.group.members k (omega arith) in
    let (zm, ezm) = get_elem?-lt s.group.members n (omega arith) in
    let moved = removed fds s.group.members k n fd z m zm len fits efd ez em ezm in
    let longer : length s.pfds ≡ suc (length fds) = ap length e in
    let left_over = pfds-without s.pfds p fds k n z e len in
    let last : get_elem? s.pfds (length s.pfds - 1) ≡ some z =
      ap (get_elem? s.pfds) (omega arith) ∙ ap (λ q. get_elem? q (suc n)) e ∙ ez in
    let last_member : get_elem? s.group.members (length s.pfds - 2) ≡ some zm =
      ap (get_elem? s.group.members) (omega arith) ∙ ezm in
    (
      without (suc k) z zm s,
      fd,
      m,
      del_from_pfds-eq (suc k) z zm s last last_member (omega arith) (omega arith),
      ap (λ w. get_elem? w k) (clients-cons s p fds e)
          ∙ get_elem?-zip fds s.group.members k fd m efd em,
      subst (λ w. Perm ((fd, m) ∷ w) (clients s)) (sym (clients-without s p fds k n z zm e len))
          (subst (λ w. Perm ((fd, m) ∷ zip (take n (set fds k z)) (set s.group.members k zm)) w)
            (sym (clients-cons s p fds e)) moved),
      refl,
      left_over.0,
      left_over.1,
    )

pub split_list : (xs : List ℕ) → 1 ≤ length xs → (x : ℕ) × (r : List ℕ) × (xs ≡ x ∷ r)
split_list [] h = absurd (omega arith)
split_list (x ∷ r) h = (x, r, refl)

-- A client hangs up.
pub handle_hangup-clients :
    (env : Env) (k : ℕ) (s : Server)
    → Synced s
    → suc k < length s.pfds
    → (s' : Server) × (fd : ℕ) × (m : GroupMember) × (handle_hangup env (suc k) s ≡ some s')
      × (get_elem? (clients s) k ≡ some (fd, m))
      × Perm ((fd, m) ∷ clients s') (clients s)
      × (s'.hangman ≡ s.hangman)
      × (length s'.pfds + 1 ≡ length s.pfds)
      × (get_elem? s'.pfds 0 ≡ get_elem? s.pfds 0)
unfolding handle_hangup send_new_group_to_users clients
handle_hangup-clients env k s h inside =
    let (p, fds, e) = split_list s.pfds h.listening in
    let longer : length s.pfds ≡ suc (length fds) = ap length e in
    let (s', fd, m, done, at, moved, game, shorter, first) =
      del_from_pfds-clients s p fds k (length fds - 1) e (omega arith) (omega arith)
        (omega (arith, h.array, h.room)) in
    (
      send_new_group_to_users env s',
      fd,
      m,
      rw (done, handle_hangup),
      at,
      moved,
      game,
      omega arith,
      first ∙ sym (ap (λ q. get_elem? q 0) e),
    )
