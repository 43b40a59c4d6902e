-- ===== src/Server/Synced.antt =====
-- The poll array and the group go together: every connection but the listener has its member.
use socket_speak.Base.{
  ℕ, zero, suc, ◌+◌, ◌-◌, ◌*◌, ◌≤◌, ◌<◌, ◌≡◌, ap, ◌∙◌, List, [], ◌∷◌, none, some, arith, length,
  length-append, length-set, length-take, get_elem?, get_elem?-lt, get_elem?-snoc,
  get_elem?-set_self, set, take, All, All-set, All-get_elem?, true, ◌==◌, if◌then◌else◌,
}
use socket_speak.Base.Int.{ℤ, pos, suc_ℤ, pred_ℤ}
use socket_speak.Server.State.{Server, Group, GroupMember, max_group_members}
use socket_speak.Server.Pollset.{add_to_pfds, handle_new_connection, copy_elem, del_from_pfds}
use socket_speak.Server.Handler.Frames.{Env, send_new_group_to_users}
use socket_speak.Server.Handler.Strings.{is_printable}
use socket_speak.Server.Handler.Dispatch.{
  handle_hangup, append_member, handle_init_member, member_of_buffer,
}

-- The array has ten entries, one for each connection behind the listener from the front, the poll
-- array is within its capacity, and all strings of the members end in their arrays.
pub record Synced (s : Server) : Type 0 where
  pub array : length s.group.members ≡ max_group_members
  pub listening : 1 ≤ length s.pfds
  pub counted : s.group.member_count ≡ pos (length s.pfds - 1)
  pub room : length s.pfds ≤ max_group_members + 1
  pub capacity : length s.pfds ≤ s.fd_size
  pub strings : All (λ m. is_printable m ≡ true) s.group.members

copy_elem-some :
    {A : Type 0} (xs : List A) (i j : ℕ)
    → i < length xs
    → j < length xs
    → (x : A) × (get_elem? xs j ≡ some x)
      × (copy_elem xs i j ≡ some (set xs i x))
      × (length (set xs i x) ≡ length xs)
unfolding copy_elem
copy_elem-some xs i j hi hj =
    let (x, e) = get_elem?-lt xs j hj in (x, e, ground arith, length-set xs i x)

pub pred-pos : (z : ℤ) (n : ℕ) → z ≡ pos n → 0 < n → pred_ℤ z ≡ pos (n - 1)
unfolding pred_ℤ
pred-pos z zero e h = elim h [ ]
pred-pos z (suc n) e h = rw e (ap pos (omega arith))

pub suc-pos : (z : ℤ) (n : ℕ) → z ≡ pos n → suc_ℤ z ≡ pos (suc n)
unfolding suc_ℤ
suc-pos z n e = rw e

-- A client that goes never makes the code reach outside the arrays, and leaves the two together.
pub del_from_pfds-Synced :
    (i : ℕ) (s : Server)
    → Synced s
    → 1 ≤ i
    → i < length s.pfds
    → (s' : Server) × (del_from_pfds i s ≡ some s')
      × Synced s'
      × (length s'.pfds + 1 ≡ length s.pfds)
unfolding del_from_pfds
del_from_pfds-Synced i s h low high =
    let (z, _, e, same) = copy_elem-some s.pfds i (length s.pfds - 1) high (omega arith) in
    let pfds = set s.pfds i z in
    let (zm, there, e', same') =
      copy_elem-some s.group.members (i - 1) (length s.pfds - 2) (omega (arith, h.array, h.room))
        (omega (arith, h.array, h.room)) in
    let members = set s.group.members (i - 1) zm in
    let printable : All (λ m. is_printable m ≡ true) members =
      All-set (λ m. is_printable m ≡ true) s.group.members (i - 1) zm h.strings
        (All-get_elem? (λ m. is_printable m ≡ true) s.group.members (length s.pfds - 2) zm h.strings
          there) in
    let left : length (take (length s.pfds - 1) pfds) ≡ length s.pfds - 1 =
      omega (arith, length-take (length s.pfds - 1) pfds, same) in
    (
      record s {
        pfds = take (length s.pfds - 1) pfds;
        group = record s.group { members = members; member_count = pred_ℤ s.group.member_count };
      },
      ground arith,
      record {
        array = same' ∙ h.array;
        listening = omega arith;
        counted =
            pred-pos s.group.member_count (length s.pfds - 1) h.counted (omega arith)
            ∙ ap pos (omega arith);
        room = omega (arith, h.room);
        capacity = omega (arith, h.capacity);
        strings = printable;
      },
      omega arith,
    )

-- If every connection has its member, then the hangup of any client makes no access outside the
-- arrays, and every connection has its member afterwards.
pub handle_hangup-Synced :
    (env : Env) (i : ℕ) (s : Server)
    → Synced s
    → 1 ≤ i
    → i < length s.pfds
    → (s' : Server) × (handle_hangup env i s ≡ some s') × Synced s'
unfolding handle_hangup send_new_group_to_users
handle_hangup-Synced env i s h low high =
    let (s', e, h', _) = del_from_pfds-Synced i s h low high in
    (
      send_new_group_to_users env s',
      rw (e, handle_hangup),
      record {
        array = h'.array;
        listening = h'.listening;
        counted = h'.counted;
        room = h'.room;
        capacity = h'.capacity;
        strings = h'.strings;
      },
    )

-- The array doubles when it is full.
grows :
    (n size len : ℕ) → 1 ≤ n → n ≤ size → len ≡ n + 1 → len ≤ (if n == size then size * 2 else size)
grows n size len h k e = ground arith

pub append_member_pos :
    (z : ℤ) (n : ℕ) (m : GroupMember) (g : Group)
    → z ≡ pos n
    → n < length g.members
    → append_member z m g
      ≡ some (record g { members = set g.members n m; member_count = suc_ℤ g.member_count })
unfolding append_member
append_member_pos z n m g e h = rw e (ground arith)

-- If every connection has its member and at most nine clients are connected, then a client that
-- connects and sends its member, with strings that end in their arrays, makes no access outside the arrays, every connection has its
-- member afterwards, and the new descriptor and the new member stand at corresponding places.
pub connect-Synced :
    (env : Env) (newfd : ℕ) (buf : List ℕ) (s : Server)
    → Synced s
    → length s.pfds ≤ max_group_members
    → is_printable (member_of_buffer buf) ≡ true
    → (s' : Server) × (handle_init_member env buf (handle_new_connection (some newfd) s) ≡ some s')
      × Synced s'
      × (get_elem? s'.group.members (length s.pfds - 1) ≡ some (member_of_buffer buf))
      × (get_elem? s'.pfds (length s.pfds) ≡ some newfd)
unfolding handle_init_member handle_new_connection send_new_group_to_users
connect-Synced env newfd buf s h room clean =
    let n = length s.pfds - 1 in
    let m = member_of_buffer buf in
    let inside : n < length s.group.members = omega (arith, h.array) in
    let e = append_member_pos s.group.member_count n m s.group h.counted inside in
    (
      send_new_group_to_users env (record (add_to_pfds newfd s) {
        group = record s.group {
          members = set s.group.members n m;
          member_count = suc_ℤ s.group.member_count;
        };
      }),
      rw (clean, e, handle_init_member),
      record {
        array = length-set s.group.members n m ∙ h.array;
        listening = omega (arith, length-append s.pfds (newfd ∷ []));
        counted =
            suc-pos s.group.member_count n h.counted
            ∙ ap pos (omega (arith, length-append s.pfds (newfd ∷ [])));
        room = omega (arith, length-append s.pfds (newfd ∷ []));
        capacity =
            grows (length s.pfds) s.fd_size _ h.listening h.capacity
              (length-append s.pfds (newfd ∷ []));
        strings = All-set (λ m. is_printable m ≡ true) s.group.members n m h.strings clean;
      },
      get_elem?-set_self s.group.members n m inside,
      get_elem?-snoc s.pfds newfd,
    )

-- If ten clients are connected, each with its member, and the strings of the members end in their
-- arrays, then the server accepts an eleventh, and whatever member this one sends makes the
-- handler of init-member reach outside an array.
pub connect_full :
    (env : Env) (newfd : ℕ) (buf : List ℕ) (s : Server)
    → Synced s
    → length s.pfds ≡ max_group_members + 1
    → (length (handle_new_connection (some newfd) s).pfds ≡ max_group_members + 2)
      × (handle_init_member env buf (handle_new_connection (some newfd) s) ≡ none)
unfolding handle_init_member handle_new_connection append_member
connect_full env newfd buf s h full =
    let ten : s.group.member_count ≡ pos max_group_members =
      h.counted ∙ ap pos (omega (arith, full)) in
    let size = h.array in
    (omega (arith, length-append s.pfds (newfd ∷ []), full), ground (arith, ten, size))
