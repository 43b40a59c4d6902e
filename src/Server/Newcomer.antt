-- ===== src/Server/Newcomer.antt =====
-- A client that leaves while another has connected and not yet sent its member.
use socket_speak.Base.{
  ℕ, suc, ◌-◌, ◌≤◌, ◌<◌, ◌≡◌, refl, sym, ap, ◌∙◌, List, [], ◌∷◌, ◌++◌, some, length, length-append,
  length-set, get_elem?, get_elem?-lt, get_elem?-snoc, get_elem?-set_self, get_elem?-set_ne,
  get_elem?-take_lt, get_elem?-append_lt, set, true, arith,
}
use socket_speak.Base.Int.{pos, pred_ℤ}
use socket_speak.Server.State.{Server, GroupMember, max_group_members}
use socket_speak.Server.Pollset.{handle_new_connection}
use socket_speak.Server.Handler.Frames.{Env, send_new_group_to_users}
use socket_speak.Server.Handler.Dispatch.{handle_hangup, handle_init_member, member_of_buffer}
use socket_speak.Server.Handler.Strings.{is_printable}
use socket_speak.Server.Synced.{Synced, pred-pos}
use socket_speak.Server.Departure.{without, del_from_pfds-eq}
use socket_speak.Server.Order.{introduced}

module _ (env : Env) (a i n : ℕ) (buf : List ℕ) (s : Server) (h : Synced s)
    (size : length s.pfds ≡ suc n) (low : 1 ≤ i) (high : i < n) (room : n < max_group_members)
    (clean : is_printable (member_of_buffer buf) ≡ true) where
  -- The server with the newcomer.
  abbrev joined : Server
  joined = handle_new_connection (some a) s

  -- The server after the hangup, `zm` being the entry behind those of the clients.
  abbrev left : GroupMember → Server
  left zm = send_new_group_to_users env (without i a zm joined)

  handle_hangup-left :
      (zm : GroupMember)
      → get_elem? s.group.members n ≡ some zm
      → handle_hangup env i joined ≡ some (left zm)
  unfolding handle_hangup handle_new_connection
  handle_hangup-left zm there =
      let more = length-append s.pfds (a ∷ []) in
      let last : length joined.pfds - 1 ≡ length s.pfds = omega (arith, more) in
      let before : length joined.pfds - 2 ≡ n = omega (arith, more, size) in
      let gone =
        del_from_pfds-eq i a zm joined (ap (get_elem? joined.pfds) last ∙ get_elem?-snoc s.pfds a)
          (ap (get_elem? s.group.members) before ∙ there) (omega (arith, more, size))
          (omega (arith, h.array)) in
      rw (gone, handle_hangup) refl

  -- If every connection has its member, the strings of the members end in their arrays and two
  -- clients or more but fewer than ten are connected, another one connects, and before it sends
  -- its member a client hangs up that is not the last of the others, then the newcomer stands at
  -- the place of the client that left, beside the unused entry behind the members, and its own
  -- member, when it comes, overwrites the member of the last of the other clients. The strings
  -- that it sends end in their arrays.
  pub handle_init_member-handle_hangup :
      (t : Server) × (u : Server) × (handle_hangup env i joined ≡ some t)
      × (handle_init_member env buf t ≡ some u)
      × (get_elem? u.pfds i ≡ some a)
      × (get_elem? u.group.members (i - 1) ≡ get_elem? s.group.members n)
      × (get_elem? u.pfds n ≡ get_elem? s.pfds n)
      × (get_elem? u.group.members (n - 1) ≡ some (member_of_buffer buf))
  unfolding handle_new_connection send_new_group_to_users
  handle_init_member-handle_hangup =
      let (zm, there) = get_elem?-lt s.group.members n (omega (arith, h.array)) in
      let ms = s.group.members in
      let fewer : pred_ℤ s.group.member_count ≡ pos (n - 1) =
        pred-pos s.group.member_count n (h.counted ∙ ap pos (omega (arith, size))) (omega arith) in
      let kept = length-set ms (i - 1) zm in
      let (u, done, same, stored, _) =
        introduced env buf (n - 1) (left zm) fewer (omega (arith, kept, h.array)) clean in
      let more = length-append s.pfds (a ∷ []) in
      let cut : length (s.pfds ++ (a ∷ [])) - 1 ≡ suc n = omega (arith, more, size) in
      let at : (j : ℕ)
          → j < suc n
          → get_elem? u.pfds j ≡ get_elem? (set (s.pfds ++ (a ∷ [])) i a) j =
        λ j below.
          ap (λ q. get_elem? q j) same
          ∙ get_elem?-take_lt (set (s.pfds ++ (a ∷ [])) i a) (length (s.pfds ++ (a ∷ [])) - 1) j
              (omega (arith, cut)) in
      (
        left zm,
        u,
        handle_hangup-left zm there,
        done,
        at i (omega arith)
            ∙ get_elem?-set_self (s.pfds ++ (a ∷ [])) i a (omega (arith, more, size)),
        ap (λ q. get_elem? q (i - 1)) stored
            ∙ get_elem?-set_ne (set ms (i - 1) zm) (n - 1) (i - 1) (member_of_buffer buf)
                (λ e. omega arith)
            ∙ get_elem?-set_self ms (i - 1) zm (omega (arith, h.array))
            ∙ sym there,
        at n (omega arith)
            ∙ get_elem?-set_ne (s.pfds ++ (a ∷ [])) i n a (λ e. omega arith)
            ∙ get_elem?-append_lt s.pfds (a ∷ []) n (omega (arith, size)),
        ap (λ q. get_elem? q (n - 1)) stored
            ∙ get_elem?-set_self (set ms (i - 1) zm) (n - 1) (member_of_buffer buf)
                (omega (arith, kept, h.array)),
      )
