-- ===== src/Server/Handled.antt =====
-- What clients send never makes the server reach outside its arrays, once every connection has its
-- member and the members are strings, and no message leaves the game in the middle of an update.
use socket_speak.Base.{
  ℕ, zero, suc, ◌+◌, ◌-◌, ◌<◌, ◌≡◌, refl, sym, ap, ◌∙◌, ◌≢◌, List, [], ◌∷◌, ◌++◌, Bool, true, false,
  Option, some, arith, length, length-set, get_elem?-lt, take, codes, ◌==◌, if◌then◌else◌, inl, inr,
  Option-cases, cstr, subst, All, All-set, All-get_elem?, strncpy_field, strncpy_field-ends,
}
use socket_speak.Base.Int.{ℤ, pos}
use socket_speak.Hangman.Fsm.{initial, update, Fsm}
use socket_speak.Hangman.Process.{process_hangman_state, hangman_finish_broadcast}
use socket_speak.Lmp.Code
use socket_speak.Server.State.{Server, GroupMember, nickname_max_len}
use socket_speak.Server.Handler.Frames.{
  Env, member_at, send_to, send_to_others, send_new_group_to_users,
}
use socket_speak.Server.Handler.Hangman.{
  handle_hangman, hangman_start, hangman_exit, hangman_join, member_index, count_of, reply_to,
  reply_to_all, finish_guess, handle_letter, handle_guess, rule_line,
}
use socket_speak.Server.Handler.Dispatch.{
  handle_nick, handle_load, handle_other, handle_msg, handle_member, handle_message,
}
use socket_speak.Server.Synced.{Synced}
use socket_speak.Server.Handler.Strings.{is_printable, legible-is_printable}

-- The poll array and the group are as before.
pub record Keeps (s s' : Server) : Type 0 where
  pub pfds_kept : s'.pfds ≡ s.pfds
  pub group_kept : s'.group ≡ s.group
  pub size_kept : s'.fd_size ≡ s.fd_size

Keeps-trans : {s t u : Server} → Keeps s t → Keeps t u → Keeps s u
Keeps-trans h k = record {
  pfds_kept = k.pfds_kept ∙ h.pfds_kept;
  group_kept = k.group_kept ∙ h.group_kept;
  size_kept = k.size_kept ∙ h.size_kept;
}

Keeps-Synced : {s t : Server} → Keeps s t → Synced s → Synced t
Keeps-Synced k h = record {
  array = ap (λ g. length g.members) k.group_kept ∙ h.array;
  listening = omega (arith, ap length k.pfds_kept);
  counted =
      ap (λ g. g.member_count) k.group_kept
      ∙ h.counted
      ∙ ap (λ p. pos (length p - 1)) (sym k.pfds_kept);
  room = omega (arith, ap length k.pfds_kept);
  capacity = omega (arith, ap length k.pfds_kept, k.size_kept);
  strings = subst (λ g. All (λ m. is_printable m ≡ true) g.members) (sym k.group_kept) h.strings;
}

pub member_index-lt :
    (n : ℕ) (ms : List GroupMember) (uid : List ℕ) (j : ℕ) → member_index n ms uid ≡ some j → j < n
unfolding member_index
member_index-lt zero ms uid j e = cc
member_index-lt (suc n) [] uid j e = cc
member_index-lt (suc n) (m ∷ ms) uid zero e = omega arith
member_index-lt (suc n) (m ∷ ms) uid (suc j) e = ground (arith, member_index-lt n ms uid j)

pub count_of_pos : (z : ℤ) (n : ℕ) → z ≡ pos n → count_of z ≡ n
count_of_pos z n e = rw e

module _ (text : List ℕ) where
  reply_to-Keeps :
      (uid : List ℕ) (s : Server)
      → Synced s
      → (s' : Server) × (reply_to text uid s ≡ some s') × Keeps s s'
  unfolding reply_to
  reply_to-Keeps uid s h =
      elim (Option-cases (member_index (count_of s.group.member_count) s.group.members uid)) [
        | inl absent ↦ (
          s,
          rw (absent, reply_to),
          record { pfds_kept = refl; group_kept = refl; size_kept = refl },
        )
        | inr (j, found) ↦
            let low = member_index-lt _ s.group.members uid j found in
            let (fd, at) =
              get_elem?-lt s.pfds (j + 1)
                (omega (arith, low, h.listening, count_of_pos s.group.member_count _ h.counted)) in
            (
              send_to fd Code.grp_hangman text s,
              rw (found, reply_to) (rw at),
              unfold send_to in record { pfds_kept = refl; group_kept = refl; size_kept = refl },
            )
      ]

  reply_to_all-Keeps :
      (users : List (List ℕ)) (s : Server)
      → Synced s
      → (s' : Server) × (reply_to_all text users s ≡ some s') × Keeps s s'
  unfolding reply_to_all
  reply_to_all-Keeps [] s h =
      (s, refl, record { pfds_kept = refl; group_kept = refl; size_kept = refl })
  reply_to_all-Keeps (uid ∷ users) s h =
      let (t, e, k) = reply_to-Keeps uid s h in
      let (u, e', k') = reply_to_all-Keeps users t (Keeps-Synced k h) in
      (u, rw (e, reply_to_all) e', Keeps-trans k k')

not_eq : (a b : ℕ) → a ≢ b → (a == b) ≡ false
not_eq a b h = ground arith

-- A handler that does not fault, leaves the poll array and the group alone, and does not leave the
-- game in an update.
abbrev pub Handles : Server → Option Server → Type 0
Handles s r = (s' : Server) × (r ≡ some s') × Keeps s s' × (s'.hangman.state ≢ update)

finish_ne_update : (f : Fsm) → (hangman_finish_broadcast f).state ≢ update
unfolding hangman_finish_broadcast
finish_ne_update f h = ground arith

start_ne_update :
    (env : Env) (f : Fsm) (input : ℕ)
    → f.state ≡ initial
    → (process_hangman_state env.draw f input).0.state ≢ update
unfolding process_hangman_state
start_ne_update env f input e h = ground arith

handle_letter-Handles :
    (env : Env) (nick : List ℕ) (guess : ℕ) (s : Server)
    → Synced s
    → Handles s (handle_letter env nick guess s)
unfolding handle_letter
handle_letter-Handles env nick guess s h =
    let (game, reply) = process_hangman_state env.draw s.hangman guess in
    let text = rule_line ++ (nick ++ (codes " guessed '" ++ (guess ∷ (codes "'\n" ++ reply)))) in
    let (t, e, k) =
      reply_to_all-Keeps text s.users (record s { hangman = game; hangman_old_response = text })
        (Keeps-Synced (record { pfds_kept = refl; group_kept = refl; size_kept = refl }) h) in
    (
      finish_guess t,
      rw (e, handle_letter),
      unfold finish_guess in
          (record { pfds_kept = k.pfds_kept; group_kept = k.group_kept; size_kept = k.size_kept }),
      unfold finish_guess in finish_ne_update t.hangman,
    )

-- Sending changes nothing else.
send_to-Keeps :
    (fd type : ℕ) (payload : List ℕ) (s : Server)
    → Keeps s (send_to fd type payload s) × ((send_to fd type payload s).hangman ≡ s.hangman)
unfolding send_to
send_to-Keeps fd type payload s =
    (record { pfds_kept = refl; group_kept = refl; size_kept = refl }, refl)

send_to-Handles :
    (fd type : ℕ) (payload : List ℕ) (s : Server)
    → s.hangman.state ≢ update
    → Handles s (some (send_to fd type payload s))
send_to-Handles fd type payload s idle =
    let (k, same) = send_to-Keeps fd type payload s in
    (_, refl, k, λ e. idle (ap (λ f. f.state) (sym same) ∙ e))

Handles-if :
    {s : Server} (b : Bool) {x y : Option Server}
    → Handles s x
    → Handles s y
    → Handles s (if b then x else y)
Handles-if true hx hy = hx
Handles-if false hx hy = hy

handle_guess-Handles :
    (env : Env) (fd : ℕ) (nick text : List ℕ) (s : Server)
    → Synced s
    → s.hangman.state ≢ update
    → Handles s (handle_guess env fd nick text s)
unfolding handle_guess
handle_guess-Handles env fd nick [] s h idle = send_to-Handles fd _ _ s idle
handle_guess-Handles env fd nick (guess ∷ more) s h idle =
    Handles-if _ (send_to-Handles fd _ _ s idle)
      (Handles-if _ (handle_letter-Handles env nick guess s h) (send_to-Handles fd _ _ s idle))

handle_hangman-Handles :
    (env : Env) (fd : ℕ) (m : GroupMember) (text : List ℕ) (s : Server)
    → s.hangman.state ≢ update
    → Keeps s (handle_hangman env fd m text s)
      × ((handle_hangman env fd m text s).hangman.state ≢ update)
unfolding handle_hangman hangman_start hangman_exit hangman_join send_to send_to_others
handle_hangman-Handles env fd m text s idle =
    (ground arith, λ e. ground (arith, start_ne_update env s.hangman 0))

handle_other-Keeps :
    (env : Env) (fd j type : ℕ) (payload : List ℕ) (s : Server)
    → Keeps s (handle_other env fd j type payload s)
      × ((handle_other env fd j type payload s).hangman ≡ s.hangman)
unfolding handle_other send_to_others
handle_other-Keeps env fd j type payload s =
    (record { pfds_kept = refl; group_kept = refl; size_kept = refl }, refl)

handle_msg-Handles :
    (env : Env) (fd j : ℕ) (m : GroupMember) (text payload : List ℕ) (s : Server)
    → Synced s
    → s.hangman.state ≢ update
    → Handles s (handle_msg env fd j m text payload s)
unfolding handle_msg handle_other send_to_others
handle_msg-Handles env fd j m text payload s h idle =
    Handles-if _ (handle_guess-Handles env fd (cstr m.nickname) text s h idle)
      (_, refl, record { pfds_kept = refl; group_kept = refl; size_kept = refl }, idle)

-- The server after a message: still in order, on the same connections, with no update pending.
abbrev pub Survives : Server → Option Server → Type 0
Survives s r =
    (s' : Server) × (r ≡ some s') × Synced s' × (s'.pfds ≡ s.pfds) × (s'.hangman.state ≢ update)

Handles-Survives : {s : Server} {r : Option Server} → Synced s → Handles s r → Survives s r
Handles-Survives h (s', e, k, idle) = (s', e, Keeps-Synced k h, k.pfds_kept, idle)

handle_nick-Synced :
    (env : Env) (j : ℕ) (m : GroupMember) (text : List ℕ) (s : Server)
    → Synced s
    → is_printable m ≡ true
    → Synced (handle_nick env j m text s)
      × ((handle_nick env j m text s).pfds ≡ s.pfds)
      × ((handle_nick env j m text s).hangman ≡ s.hangman)
unfolding handle_nick send_new_group_to_users
handle_nick-Synced env j m text s h printable =
    let clean : is_printable (record m { nickname = strncpy_field nickname_max_len text }) ≡ true =
      let ended = strncpy_field-ends nickname_max_len text (omega arith) in
      ground (arith, printable, ended) in
    (
      record {
        array = length-set s.group.members j _ ∙ h.array;
        listening = h.listening;
        counted = h.counted;
        room = h.room;
        capacity = h.capacity;
        strings = All-set (λ m. is_printable m ≡ true) s.group.members j _ h.strings clean;
      },
      refl,
      refl,
    )

handle_load-Keeps :
    (env : Env) (fd : ℕ) (s : Server)
    → Keeps s (handle_load env fd s) × ((handle_load env fd s).hangman ≡ s.hangman)
unfolding handle_load send_to
handle_load-Keeps env fd s =
    (record { pfds_kept = refl; group_kept = refl; size_kept = refl }, refl)

Survives-if :
    (s : Server) (b : Bool) {x y : Option Server}
    → Survives s x
    → Survives s y
    → Survives s (if b then x else y)
Survives-if s true hx hy = hx
Survives-if s false hx hy = hy

stays_idle : (f g : Fsm) → g ≡ f → f.state ≢ update → g.state ≢ update
stays_idle f g same idle e = idle (ap (λ f. f.state) (sym same) ∙ e)

module _ (env : Env) (fd j type : ℕ) (s : Server) (synced : Synced s)
    (idle : s.hangman.state ≢ update) where
  handle_member-Survives :
      (text payload : List ℕ) (m : GroupMember)
      → is_printable m ≡ true
      → Survives s (handle_member env fd j type text payload (some m) s)
  unfolding handle_member
  handle_member-Survives text payload m printable =
      rw (legible-is_printable type text m s printable)
        (Survives-if s _ nicked (Survives-if s _ loaded (Survives-if s _ played messaged)))
    where
      nicked : Survives s (some (handle_nick env j m text s))
      nicked =
          let (h, same, game) = handle_nick-Synced env j m text s synced printable in
          (_, refl, h, same, stays_idle s.hangman _ game idle)

      loaded : Survives s (some (handle_load env fd s))
      loaded =
          let (k, game) = handle_load-Keeps env fd s in
          (_, refl, Keeps-Synced k synced, k.pfds_kept, stays_idle s.hangman _ game idle)

      played : Survives s (some (handle_hangman env fd m text s))
      played =
          let (k, idle') = handle_hangman-Handles env fd m text s idle in
          (_, refl, Keeps-Synced k synced, k.pfds_kept, idle')

      messaged : Survives s (handle_msg env fd j m text payload s)
      messaged = Handles-Survives synced (handle_msg-Handles env fd j m text payload s synced idle)

  -- If every connection has its member, the strings of the members end in their arrays and the
  -- game is in no update, then no message from a client, but a further init-member message, makes
  -- the handler reach outside the arrays or read a string behind its array; it keeps the poll
  -- array, every connection still has its member, the strings still end in their arrays, and the
  -- game is in no update afterwards.
  pub handle_message-Survives :
      (buf : List ℕ) (len : ℕ)
      → j + 1 < length s.pfds
      → type ≢ Code.grp_init_member
      → Survives s (handle_message env fd j type buf len s)
  unfolding handle_message
  handle_message-Survives buf len inside other =
      let (m, at) = get_elem?-lt s.group.members j (omega (arith, synced.array, synced.room)) in
      let (k, game) = handle_other-Keeps env fd j type (take len buf) s in
      let sender : Survives s
          (handle_member env fd j type (cstr buf) (take len buf) (member_at s j) s) =
        rw at (
          handle_member-Survives (cstr buf) (take len buf) m
            (All-get_elem? (λ m. is_printable m ≡ true) s.group.members j m synced.strings at)) in
      rw (not_eq type Code.grp_init_member other) (
        Survives-if s _ sender
          (_, refl, Keeps-Synced k synced, k.pfds_kept, stays_idle s.hangman _ game idle))
