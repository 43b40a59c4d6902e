-- ===== src/Server/Order.antt =====
-- Two clients that connect at the same time, and introduce themselves in the opposite order.
use mathlib.Core.List.{append_assoc}
use socket_speak.Base.{
  true, ℕ, suc, ◌-◌, ◌<◌, ◌≡◌, refl, sym, ap, ◌∙◌, List, [], ◌∷◌, ◌++◌, some, length, length-append,
  length-set, set, drop, arith,
}
use socket_speak.Base.Int.{pos, suc_ℤ}
use socket_speak.Server.State.{Server, max_group_members}
use socket_speak.Server.Pollset.{handle_new_connection}
use socket_speak.Server.Handler.Frames.{Env, send_new_group_to_users}
use socket_speak.Server.Handler.Dispatch.{handle_init_member, member_of_buffer}
use socket_speak.Server.Handler.Strings.{is_printable}
use socket_speak.Server.Synced.{Synced, append_member_pos, suc-pos}
use socket_speak.Server.Clients.{zip, zip-snoc, clients}
use socket_speak.Server.Departure.{split_list}

-- An introduction while `n` members are known: the member goes to place `n`.
pub introduced :
    (env : Env) (buf : List ℕ) (n : ℕ) (s : Server)
    → s.group.member_count ≡ pos n
    → n < length s.group.members
    → is_printable (member_of_buffer buf) ≡ true
    → (t : Server) × (handle_init_member env buf s ≡ some t)
      × (t.pfds ≡ s.pfds)
      × (t.group.members ≡ set s.group.members n (member_of_buffer buf))
      × (t.group.member_count ≡ suc_ℤ s.group.member_count)
unfolding handle_init_member send_new_group_to_users
introduced env buf n s counted inside clean =
    let m = member_of_buffer buf in
    (
      send_new_group_to_users env (record s {
        group = record s.group {
          members = set s.group.members n m;
          member_count = suc_ℤ s.group.member_count;
        };
      }),
      rw (
        clean,
        append_member_pos s.group.member_count n m s.group counted inside,
        handle_init_member,
      ),
      refl,
      refl,
      refl,
    )

-- If every connection has its member, the strings of the members end in their arrays and two more
-- have room, and two clients connect before either sends its member, and the second to connect
-- sends its member first, then both are stored, but the first connection has the member of the
-- second client and the second connection the member of the first. The strings that they send end
-- in their arrays.
pub handle_init_member_swapped :
    (env : Env) (a b : ℕ) (buf_a buf_b : List ℕ) (s : Server)
    → Synced s
    → length s.pfds < max_group_members
    → is_printable (member_of_buffer buf_a) ≡ true
    → is_printable (member_of_buffer buf_b) ≡ true
    → let both = handle_new_connection (some b) (handle_new_connection (some a) s) in
      (t : Server) × (u : Server) × (handle_init_member env buf_b both ≡ some t)
      × (handle_init_member env buf_a t ≡ some u)
      × (clients u ≡ clients s ++ ((a, member_of_buffer buf_b) ∷ (b, member_of_buffer buf_a) ∷ []))
unfolding handle_new_connection clients
handle_init_member_swapped env a b buf_a buf_b s h room clean_a clean_b =
    let (p, fds, e) = split_list s.pfds h.listening in
    let ms = s.group.members in
    let n = length s.pfds - 1 in
    let size : n ≡ length fds = ap (λ q. length q - 1) e ∙ omega arith in
    let both = handle_new_connection (some b) (handle_new_connection (some a) s) in
    let (t, done, same, first, one_more) =
      introduced env buf_b n both h.counted (omega (arith, h.array)) clean_b in
    let after : length t.group.members ≡ length ms =
      ap length first ∙ length-set ms n (member_of_buffer buf_b) in
    let (u, done', same', second, _) =
      introduced env buf_a (suc n) t (one_more ∙ suc-pos s.group.member_count n h.counted)
        (omega (arith, h.array)) clean_a in
    let fds_a = fds ++ (a ∷ []) in
    let ms_b = set ms n (member_of_buffer buf_b) in
    let more : suc n ≡ length fds_a = omega (arith, length-append fds (a ∷ [])) in
    let listed : drop 1 u.pfds ≡ fds_a ++ (b ∷ []) =
      ap (drop 1) (same' ∙ same) ∙ ap (λ q. drop 1 ((q ++ (a ∷ [])) ++ (b ∷ []))) e in
    let stored : u.group.members ≡ set ms_b (length fds_a) (member_of_buffer buf_a) =
      second
      ∙ ap (λ q. set q (suc n) (member_of_buffer buf_a)) first
      ∙ ap (λ q. set ms_b q (member_of_buffer buf_a)) more in
    (
      t,
      u,
      done,
      done',
      ap (λ q. zip q u.group.members) listed
          ∙ ap (zip (fds_a ++ (b ∷ []))) stored
          ∙ zip-snoc fds_a ms_b b (member_of_buffer buf_a)
              (omega (arith, length-set ms n (member_of_buffer buf_b), h.array))
          ∙ ap
              (λ q.
                zip fds_a (set ms q (member_of_buffer buf_b)) ++ ((b, member_of_buffer buf_a) ∷ []))
              size
          ∙ ap (λ q. q ++ ((b, member_of_buffer buf_a) ∷ []))
              (zip-snoc fds ms a (member_of_buffer buf_b) (omega (arith, h.array)))
          ∙ append_assoc (zip fds ms) ((a, member_of_buffer buf_b) ∷ [])
              ((b, member_of_buffer buf_a) ∷ [])
          ∙ ap
              (λ q.
                zip (drop 1 q) ms
                ++ ((a, member_of_buffer buf_b) ∷ (b, member_of_buffer buf_a) ∷ []))
              (sym e),
    )
