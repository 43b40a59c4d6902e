-- ===== src/Server/Replies.antt =====
-- The replies of the game, seen from the clients: `reply_to` finds a descriptor by two indices, here
-- it is found beside its member.
use mathlib.Core.List.{append-nil, append_assoc}
use socket_speak.Base.{
  ℕ, suc, ◌+◌, ◌-◌, ◌≤◌, ◌≡◌, refl, sym, ap, ◌∙◌, inl, inr, List, [], ◌∷◌, ◌++◌, Option, none, some,
  length, get_elem?, get_elem?-lt, drop, cstr, str_eq, if◌then◌else◌, Option-cases, arith,
}
use socket_speak.Lmp.Code
use socket_speak.Server.State.{Server, GroupMember, Send}
use socket_speak.Server.Handler.Frames.{send_to}
use socket_speak.Server.Handler.Hangman.{member_index, count_of, reply_to, reply_to_all}
use socket_speak.Server.Clients.{zip, clients}
use socket_speak.Server.Synced.{Synced}
use socket_speak.Server.Departure.{split_list}
use socket_speak.Server.Handled.{member_index-lt, count_of_pos}

-- The descriptor of the first client whose member has the uid.
abbrev pub client_with : List (ℕ × GroupMember) → List ℕ → Option ℕ
client_with [] uid = none
client_with ((fd, m) ∷ cs) uid =
    let rest = client_with cs uid in if str_eq (cstr m.uid) uid then some fd else rest

-- The frame for a client, if there is one.
abbrev frame_for : List ℕ → Option ℕ → List Send
frame_for text none = []
frame_for text (some fd) =
    record { fd = fd; type = Code.grp_hangman; sender = 0; payload = text } ∷ []

-- One frame for each of the players that is a client, in their order.
abbrev pub frames_for : List ℕ → List (ℕ × GroupMember) → List (List ℕ) → List Send
frames_for text cs [] = []
frames_for text cs (uid ∷ users) = frame_for text (client_with cs uid) ++ frames_for text cs users

abbrev at_index : List ℕ → Option ℕ → Option ℕ
at_index fds none = none
at_index fds (some j) = get_elem? fds j

client_with-member_index :
    (fds : List ℕ) (ms : List GroupMember) (uid : List ℕ)
    → length fds ≤ length ms
    → client_with (zip fds ms) uid ≡ at_index fds (member_index (length fds) ms uid)
unfolding member_index
client_with-member_index [] ms uid h = refl
client_with-member_index (fd ∷ fds) [] uid h = absurd (omega arith)
client_with-member_index (fd ∷ fds) (m ∷ ms) uid h =
    ground (arith, client_with-member_index fds ms uid (omega arith))

-- `reply_to` for the poll array `p ∷ fds`.
reply_to-client_with :
    (text uid : List ℕ) (p : ℕ) (fds : List ℕ) (s : Server)
    → s.pfds ≡ p ∷ fds
    → count_of s.group.member_count ≡ length fds
    → length fds ≤ length s.group.members
    → reply_to text uid s
      ≡ some (record s {
        sends = s.sends ++ frame_for text (client_with (zip fds s.group.members) uid);
      })
unfolding reply_to send_to
reply_to-client_with text uid p fds s e counted room =
    let same = client_with-member_index fds s.group.members uid room in
    let framed : Option ℕ → Option Server =
      λ c. some (record s { sends = s.sends ++ frame_for text c }) in
    let at_count = ap (λ n. member_index n s.group.members uid) counted in
    elim (Option-cases (member_index (length fds) s.group.members uid)) [
      | inl absent ↦
          let quiet : reply_to text uid s ≡ some s = rw (at_count ∙ absent, reply_to) refl in
          quiet
          ∙ ap (λ q. some (record s { sends = q })) (sym (append-nil s.sends))
          ∙ ap framed (sym (same ∙ ap (at_index fds) absent))
      | inr (j, found) ↦
          let low = member_index-lt (length fds) s.group.members uid j found in
          let (fd, there) = get_elem?-lt fds j low in
          let shifted : j + 1 ≡ suc j = omega arith in
          let at : get_elem? s.pfds (j + 1) ≡ some fd =
            ap (get_elem? s.pfds) shifted ∙ ap (λ q. get_elem? q (suc j)) e ∙ there in
          let sent : reply_to text uid s ≡ some (send_to fd Code.grp_hangman text s) =
            rw (at_count ∙ found, reply_to) (rw at refl) in
          sent ∙ ap framed (sym (same ∙ ap (at_index fds) found ∙ there))
    ]

-- The loop over the players.
reply_to_all-frames_from :
    (text : List ℕ) (users : List (List ℕ)) (p : ℕ) (fds : List ℕ) (s : Server)
    → s.pfds ≡ p ∷ fds
    → count_of s.group.member_count ≡ length fds
    → length fds ≤ length s.group.members
    → reply_to_all text users s
      ≡ some (record s { sends = s.sends ++ frames_for text (zip fds s.group.members) users })
unfolding reply_to_all
reply_to_all-frames_from text [] p fds s e counted room =
    ap (λ q. some (record s { sends = q })) (sym (append-nil s.sends))
reply_to_all-frames_from text (uid ∷ users) p fds s e counted room =
    let cs = zip fds s.group.members in
    let now = frame_for text (client_with cs uid) in
    let t : Server = record s { sends = s.sends ++ now } in
    rw (reply_to-client_with text uid p fds s e counted room, reply_to_all)
      (reply_to_all-frames_from text users p fds t e counted room
        ∙ ap (λ q. some (record s { sends = q }))
            (append_assoc s.sends now (frames_for text cs users)))

pub reply_to_all-frames_for :
    (text : List ℕ) (users : List (List ℕ)) (s : Server)
    → Synced s
    → reply_to_all text users s
      ≡ some (record s { sends = s.sends ++ frames_for text (clients s) users })
unfolding clients
reply_to_all-frames_for text users s h =
    let (p, fds, e) = split_list s.pfds h.listening in
    let size : length s.pfds - 1 ≡ length fds = ap (λ q. length q - 1) e ∙ omega arith in
    reply_to_all-frames_from text users p fds s e
      (count_of_pos s.group.member_count (length s.pfds - 1) h.counted ∙ size)
      (omega (arith, h.array, h.room))
    ∙ ap
        (λ q.
          some (record s {
            sends = s.sends ++ frames_for text (zip (drop 1 q) s.group.members) users;
          }))
        (sym e)
