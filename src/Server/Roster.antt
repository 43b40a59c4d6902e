-- ===== src/Server/Roster.antt =====
-- Every event of the server is a change of the group: a client joins, a client leaves, or all stay.
use mathlib.Core.List.{Perm}
use socket_speak.Base.{
  ℕ, suc, ◌+◌, ◌-◌, ◌≤◌, ◌<◌, ◌≡◌, ◌≢◌, refl, sym, ap, subst, ◌∙◌, List, [], ◌∷◌, ◌++◌, map, some,
  true, arith, length, length-drop, get_elem?, get_elem?-lt, set, drop,
}
use socket_speak.Base.Int.{suc_ℤ}
use socket_speak.Hangman.Fsm.{update}
use socket_speak.Lmp.Code
use socket_speak.Lmp.Frame.{Received, message, refused, stuck}
use socket_speak.Server.State.{Server, GroupMember, max_group_members}
use socket_speak.Server.Pollset.{add_to_pfds, handle_new_connection}
use socket_speak.Server.Handler.Frames.{Env, send_new_group_to_users}
use socket_speak.Server.Handler.Dispatch.{handle_init_member, handle_client_data, member_of_buffer}
use socket_speak.Server.Handler.Strings.{is_printable}
use socket_speak.Server.Synced.{Synced, append_member_pos, handle_hangup-Synced, connect-Synced}
use socket_speak.Server.Clients.{zip, zip-snoc, clients}
use socket_speak.Server.Departure.{split_list, handle_hangup-clients}
use socket_speak.Server.Handled.{handle_message-Survives}

-- What an event does to the group: the client behind a descriptor enters with its member, the
-- client at a place of the list leaves, or a client speaks.
pub data Event : Type 0 where
  enters : ℕ → GroupMember → Event
  leaves : ℕ → Event
  speaks : Event

abbrev pub Change : Event → List (ℕ × GroupMember) → List (ℕ × GroupMember) → Type 0
Change (enters fd m) old new = new ≡ old ++ ((fd, m) ∷ [])
Change (leaves k) old new = (c : ℕ × GroupMember) × (get_elem? old k ≡ some c) × Perm (c ∷ new) old
Change speaks old new = map (λ c. c.0) new ≡ map (λ c. c.0) old

fsts-zip :
    (fds : List ℕ) (ms : List GroupMember)
    → length fds ≤ length ms
    → map (λ c. c.0) (zip fds ms) ≡ fds
fsts-zip [] ms h = refl
fsts-zip (x ∷ fds) [] h = absurd (omega arith)
fsts-zip (x ∷ fds) (m ∷ ms) h = ap (λ r. x ∷ r) (fsts-zip fds ms (omega arith))

fsts-clients : (s : Server) → Synced s → map (λ c. c.0) (clients s) ≡ drop 1 s.pfds
unfolding clients
fsts-clients s h =
    fsts-zip (drop 1 s.pfds) s.group.members (omega (arith, length-drop 1 s.pfds, h.array, h.room))

pub some_inj : {A : Type 0} (x y : A) → some x ≡ some y → x ≡ y
some_inj x y e = cc

-- A client connects and introduces itself.
connect-clients :
    (env : Env) (newfd : ℕ) (buf : List ℕ) (s : Server)
    → Synced s
    → length s.pfds ≤ max_group_members
    → is_printable (member_of_buffer buf) ≡ true
    → (s' : Server) × (handle_init_member env buf (handle_new_connection (some newfd) s) ≡ some s')
      × (clients s' ≡ clients s ++ ((newfd, member_of_buffer buf) ∷ []))
      × (s'.hangman ≡ s.hangman)
unfolding handle_init_member handle_new_connection send_new_group_to_users clients
connect-clients env newfd buf s h room clean =
    let (p, fds, e) = split_list s.pfds h.listening in
    let n = length s.pfds - 1 in
    let m = member_of_buffer buf in
    let size : n ≡ length fds = ap (λ q. length q - 1) e ∙ omega arith in
    let inside : n < length s.group.members = omega (arith, h.array) in
    let appended = append_member_pos s.group.member_count n m s.group h.counted inside in
    (
      send_new_group_to_users env (record (add_to_pfds newfd s) {
        group = record s.group {
          members = set s.group.members n m;
          member_count = suc_ℤ s.group.member_count;
        };
      }),
      rw (clean, appended, handle_init_member),
      ap (λ q. zip (drop 1 (q ++ (newfd ∷ []))) (set s.group.members n m)) e
          ∙ ap (λ q. zip (fds ++ (newfd ∷ [])) (set s.group.members q m)) size
          ∙ zip-snoc fds s.group.members newfd m (omega arith)
          ∙ ap (λ q. zip (drop 1 q) s.group.members ++ ((newfd, m) ∷ [])) (sym e),
      refl,
    )

-- What a client may send: anything but a second introduction.
abbrev pub IsOrdinary : Received → Type 0
IsOrdinary (message m) = m.type ≢ Code.grp_init_member
IsOrdinary (refused e) = Unit {0}
IsOrdinary stuck = ⊥

-- One event of the server: a client connects and introduces itself, with strings that end in their
-- arrays, or a socket is read.
pub data Step (env : Env) (s t : Server) : Type 0 where
  connects :
      (newfd : ℕ) (buf : List ℕ)
      → length s.pfds ≤ max_group_members
      → is_printable (member_of_buffer buf) ≡ true
      → handle_init_member env buf (handle_new_connection (some newfd) s) ≡ some t
      → Step env s t
  reads :
      (k : ℕ) (r : Received) (next : ℕ)
      → suc k < length s.pfds
      → IsOrdinary r
      → handle_client_data env (suc k) r s ≡ some (t, next)
      → Step env s t

-- Each step has its environment: the word file and whether a call succeeds may change.
pub data Reach (s : Server) : Server → Type 0 where
  here : Reach s s
  step : {t u : Server} → Reach s t → (env : Env) → Step env t u → Reach s u

-- What reading from the client at a place is: it leaves if its frame is refused.
abbrev pub read_event : ℕ → Received → Event
read_event k (message m) = speaks
read_event k (refused e) = leaves k
read_event k stuck = speaks

abbrev pub event_of : {env : Env} {s t : Server} → Step env s t → Event
event_of (connects newfd buf room clean done) = enters newfd (member_of_buffer buf)
event_of (reads k r next inside other done) = read_event k r

-- The events of a run, the last one first.
abbrev pub events_of : {s t : Server} → Reach s t → List Event
events_of here = []
events_of (step r env one) = event_of one ∷ events_of r

-- What holds between events.
pub record Settled (s : Server) : Type 0 where
  pub synced : Synced s
  pub idle : s.hangman.state ≢ update

module _ (env : Env) (s : Server) (settled : Settled s) where
  -- If every connection has its member and the game is in no update, then handle_client_data
  -- handles whatever the receiver got from a client, a message other than init-member or an error,
  -- with a result: the pairs of descriptor and member change by that client alone, every
  -- connection has its member afterwards, and the game is in no update. The listener stays in its
  -- place, and the index goes back by one where the poll array is shorter by one; it is never
  -- longer.
  pub handle_client_data-Settled :
      (k : ℕ) (r : Received)
      → suc k < length s.pfds
      → IsOrdinary r
      → (t : Server) × (next : ℕ) × (handle_client_data env (suc k) r s ≡ some (t, next))
        × Settled t
        × Change (read_event k r) (clients s) (clients t)
        × (length t.pfds + suc k ≡ length s.pfds + next)
        × (get_elem? t.pfds 0 ≡ get_elem? s.pfds 0)
        × (length t.pfds ≤ length s.pfds)
  unfolding handle_client_data
  handle_client_data-Settled k (message m) inside other =
      let (fd, at) = get_elem?-lt s.pfds (suc k) inside in
      let (t, done, synced, same, idle) =
        handle_message-Survives env fd (suc k - 1) m.type s settled.synced settled.idle m.buf m.len
          (omega arith) other in
      let kept : map (λ c. c.0) (clients t) ≡ map (λ c. c.0) (clients s) =
        fsts-clients t synced ∙ ap (drop 1) same ∙ sym (fsts-clients s settled.synced) in
      (
        t,
        suc k,
        rw (at, handle_client_data) (rw done refl),
        record { synced = synced; idle = idle },
        kept,
        ap (λ q. length q + suc k) same,
        ap (λ q. get_elem? q 0) same,
        omega (arith, ap length same),
      )
  handle_client_data-Settled k (refused e) inside other =
      let (t, fd, c, done, at, moved, game, shorter, first) =
        handle_hangup-clients env k s settled.synced inside in
      let (t', done', synced) =
        handle_hangup-Synced env (suc k) s settled.synced (omega arith) inside in
      (
        t,
        suc k - 1,
        rw (done, handle_client_data) refl,
        record {
          synced = subst Synced (some_inj t' t (sym done' ∙ done)) synced;
          idle = λ u. settled.idle (ap (λ f. f.state) (sym game) ∙ u);
        },
        ((fd, c), at, moved),
        omega arith,
        first,
        omega arith,
      )
  handle_client_data-Settled k stuck inside other = absurd other

  pub connect-Settled :
      (newfd : ℕ) (buf : List ℕ)
      → length s.pfds ≤ max_group_members
      → is_printable (member_of_buffer buf) ≡ true
      → (t : Server) × (handle_init_member env buf (handle_new_connection (some newfd) s) ≡ some t)
        × Settled t
        × Change (enters newfd (member_of_buffer buf)) (clients s) (clients t)
  connect-Settled newfd buf room clean =
      let (t, done, grown, game) = connect-clients env newfd buf s settled.synced room clean in
      let (t', done', synced, _, _) = connect-Synced env newfd buf s settled.synced room clean in
      (
        t,
        done,
        record {
          synced = subst Synced (some_inj t' t (sym done' ∙ done)) synced;
          idle = λ u. settled.idle (ap (λ f. f.state) (sym game) ∙ u);
        },
        grown,
      )

-- A step does what its event says.
Step-Settled :
    (env : Env) {s t : Server} (one : Step env s t)
    → Settled s
    → Settled t × Change (event_of one) (clients s) (clients t)
Step-Settled env {s} {t} (connects newfd buf room clean done) h =
    let (t', done', settled, change) = connect-Settled env s h newfd buf room clean in
    let same = some_inj t' t (sym done' ∙ done) in
    (
      subst Settled same settled,
      subst (λ u. Change (enters newfd (member_of_buffer buf)) (clients s) (clients u)) same change,
    )
Step-Settled env {s} {t} (reads k r next inside other done) h =
    let (t', next', done', settled, change, _, _, _) =
      handle_client_data-Settled env s h k r inside other in
    let same : t' ≡ t = ap (λ p. p.0) (some_inj (t', next') (t, next) (sym done' ∙ done)) in
    (
      subst Settled same settled,
      subst (λ u. Change (read_event k r) (clients s) (clients u)) same change,
    )

-- The events, the last one first, and what they made of a list of clients.
pub data Changes (s : List (ℕ × GroupMember)) : List Event → List (ℕ × GroupMember) → Type 0 where
  none_yet : Changes s [] s
  then_one :
      {es : List Event} {e : Event} {t u : List (ℕ × GroupMember)}
      → Changes s es t
      → Change e t u
      → Changes s (e ∷ es) u

-- After any sequence of steps that the server takes from a state in which every connection has its
-- member, the strings of the members end in their arrays and the game is in no update, this holds
-- again, and the pairs of descriptor and member are what the events of the steps, in their order,
-- make of them: a step in which a client connects and sends its member adds this descriptor with
-- this member at the end, a step that reads an error or the end of the stream from the client at a
-- place removes the pair at this place and no other, and a step that reads a message leaves the
-- connected descriptors as they are. Each step has its own answers of the environment. Connections
-- beyond the member array, members with a string that fills its array, and further init-member
-- messages are left out.
pub Reach-Changes :
    {s t : Server} (r : Reach s t)
    → Settled s
    → Settled t × Changes (clients s) (events_of r) (clients t)
Reach-Changes here h = (h, none_yet)
Reach-Changes (step r env one) h =
    let (mid, before) = Reach-Changes r h in
    let (after, change) = Step-Settled env one mid in (after, then_one before change)
