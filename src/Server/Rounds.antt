-- ===== src/Server/Rounds.antt =====
-- The server over many rounds: clients send, hang up and join.
use socket_speak.Base.{
  ℕ, zero, suc, ◌+◌, ◌-◌, ◌≤◌, ◌<◌, ◌≡◌, ◌≢◌, refl, ap, ◌∙◌, List, [], ◌∷◌, ◌++◌, Bool, true, false,
  none, some, ◌==◌, ltb, if◌then◌else◌, length, length-append, get_elem?, get_elem?-lt,
  get_elem?-snoc, replicate, arith,
}
use socket_speak.Lmp.Code
use socket_speak.Lmp.Frame.{Message, message, stuck}
use socket_speak.Server.State.{Server, max_group_members}
use socket_speak.Server.Pollset.{handle_new_connection}
use socket_speak.Server.Handler.Frames.{Env}
use socket_speak.Server.Handler.Dispatch.{handle_message, handle_init_member, handle_client_data}
use socket_speak.Server.Roster.{Settled}
use socket_speak.Server.Connections.{
  Calls, is_ready, moved_events, visit, finished, process_connections,
}
use socket_speak.Server.Turns.{
  Listens, visit_quiet, visit_client, process_connections_over, process_connections_turn,
}
use socket_speak.Server.Serving.{Poll}

below : (n m : ℕ) → n < m → ltb n m ≡ true
below n m h = ground arith

above : (n m : ℕ) → m ≤ n → ltb n m ≡ false
above n m h = ground arith

module _ (env : Env) (calls : Calls) (events : List Bool) (s : Server) where
  -- Turns over descriptors in which poll saw nothing.
  skip :
      (d fuel all i k : ℕ)
      → all ≡ d + fuel
      → k ≡ i + d
      → k ≤ length s.pfds
      → ((j : ℕ) → i ≤ j → j < k → is_ready j events ≡ false)
      → process_connections env calls all i events s ≡ process_connections env calls fuel k events s
  skip zero fuel all i k e at inside quiet =
      let same : i ≡ k = omega arith in
      ap (λ n. process_connections env calls n i events s) (e ∙ omega arith)
      ∙ ap (λ n. process_connections env calls fuel n events s) same
  skip (suc d) fuel all i k e at inside quiet =
      let (fd, there) = get_elem?-lt s.pfds i (omega arith) in
      let turn = d + fuel in
      let more : all ≡ suc turn = e ∙ omega arith in
      ap (λ n. process_connections env calls n i events s) more
      ∙ process_connections_turn env calls turn i events s (suc i) events s
          (below i (length s.pfds) (omega arith))
          (visit_quiet env (calls.received turn) i events s (calls.accepted turn) fd there
            (quiet i (omega arith) (omega arith)))
      ∙ skip d fuel turn (suc i) k refl (omega arith) inside
          (λ j low high. quiet j (omega arith) high)

  -- A round in whose rest poll saw nothing.
  quiet_end :
      (fuel i : ℕ)
      → i ≤ length s.pfds
      → length s.pfds < i + fuel
      → ((j : ℕ) → i ≤ j → j < length s.pfds → is_ready j events ≡ false)
      → process_connections env calls fuel i events s ≡ finished s
  quiet_end fuel i low enough quiet =
      let d = length s.pfds - i in
      let rest = fuel - d - 1 in
      skip d (suc rest) fuel i (length s.pfds) (omega arith) (omega arith) (omega arith) quiet
      ∙ process_connections_over env calls rest (length s.pfds) events s
          (above (length s.pfds) (length s.pfds) (omega arith))

-- The round in which the listener alone is ready.
abbrev pub accepting : ℕ → Poll
accepting newfd = record {
  seen = some (λ n. true ∷ []);
  calls = record { received = λ k. stuck; accepted = λ k. some newfd };
}

-- The round in which the last descriptor alone is ready.
abbrev pub introducing : Message → Poll
introducing m = record {
  seen = some (λ n. replicate (n - 1) false ++ (true ∷ []));
  calls = record { received = λ k. message m; accepted = λ k. none };
}

is_ready_before : (k j : ℕ) → j < k → is_ready j (replicate k false ++ (true ∷ [])) ≡ false
is_ready_before zero j h = elim h [ ]
is_ready_before (suc k) zero h = refl
is_ready_before (suc k) (suc j) h = is_ready_before k j (omega arith)

is_ready_last : (k : ℕ) → is_ready k (replicate k false ++ (true ∷ [])) ≡ true
is_ready_last zero = refl
is_ready_last (suc k) = is_ready_last k

is_ready_rest : (j : ℕ) → 1 ≤ j → is_ready j (true ∷ false ∷ []) ≡ false
is_ready_rest zero h = elim h [ ]
is_ready_rest (suc zero) h = refl
is_ready_rest (suc (suc j)) h = refl

read_introduction :
    (env : Env) (fd i : ℕ) (m : Message) (s u : Server)
    → m.type ≡ Code.grp_init_member
    → get_elem? s.pfds i ≡ some fd
    → handle_init_member env m.buf s ≡ some u
    → handle_client_data env i (message m) s ≡ some (u, i)
unfolding handle_client_data handle_message
read_introduction env fd i m s u introduces at stored =
    let test : m.type == Code.grp_init_member ≡ true = ground arith in
    let handled : handle_message env fd (i - 1) m.type m.buf m.len s ≡ some u =
      rw (test, handle_message) stored in
    rw (at, handle_client_data) (rw (handled, handle_client_data) refl)

module _ (env : Env) (newfd : ℕ) (m : Message) (s : Server) (settled : Settled s)
    (here : Listens env s) (room : length s.pfds ≤ max_group_members)
    (introduces : m.type ≡ Code.grp_init_member) (other : newfd ≢ env.listener) where
  abbrev joined : Server
  joined = handle_new_connection (some newfd) s

  pub accept_round :
      (fuel : ℕ)
      → length s.pfds + 1 < fuel
      → process_connections env (accepting newfd).calls fuel 0 (true ∷ []) s ≡ finished joined
  unfolding visit handle_new_connection
  accept_round zero enough = elim enough [ ]
  accept_round (suc fuel) enough =
      let listening = settled.synced.listening in
      let grown = length-append s.pfds (newfd ∷ []) in
      let self : env.listener == env.listener ≡ true = ground arith in
      let taken : visit env stuck (some newfd) 0 (true ∷ []) s
          ≡ some (joined, true ∷ false ∷ [], 1) =
        rw (here, visit) (rw self refl) in
      process_connections_turn env (accepting newfd).calls fuel 0 (true ∷ []) s 1
        (true ∷ false ∷ []) joined (below 0 (length s.pfds) (omega arith)) taken
      ∙ quiet_end env (accepting newfd).calls (true ∷ false ∷ []) joined fuel 1
          (omega (arith, grown)) (omega (arith, grown)) (λ j low high. is_ready_rest j low)

  pub introduce_round :
      (fuel : ℕ) (u : Server)
      → length s.pfds + 2 < fuel
      → handle_init_member env m.buf joined ≡ some u
      → u.pfds ≡ joined.pfds
      → process_connections env
          (introducing m).calls
          fuel
          0
          (replicate (length joined.pfds - 1) false ++ (true ∷ []))
          joined
        ≡ finished u
  unfolding handle_new_connection
  introduce_round fuel u enough stored same =
      let n = length s.pfds in
      let grown = length-append s.pfds (newfd ∷ []) in
      let last : length joined.pfds - 1 ≡ n = omega (arith, grown) in
      let calls = (introducing m).calls in
      let events = replicate n false ++ (true ∷ []) in
      let r = fuel - n - 2 in
      let there = get_elem?-snoc s.pfds newfd in
      let unlike : newfd == env.listener ≡ false = ground (arith, other) in
      let done = read_introduction env newfd n m joined u introduces there stored in
      let still : (if n == n then events else moved_events n events) ≡ events = ground arith in
      let turn =
        visit_client env (message m) n events joined newfd n u there (is_ready_last n) unlike done
        ∙ ap (λ v. some (u, v, suc n)) still in
      ap (λ k. process_connections env calls fuel 0 (replicate k false ++ (true ∷ [])) joined) last
      ∙ skip env calls events joined n (suc (suc r)) fuel 0 n (omega arith) (omega arith)
          (omega (arith, grown)) (λ j low high. is_ready_before n j high)
      ∙ process_connections_turn env calls (suc r) n events joined (suc n) events u
          (below n (length joined.pfds) (omega (arith, grown))) turn
      ∙ process_connections_over env calls r (suc n) events u
          (above (suc n) (length u.pfds) (omega (arith, grown, ap length same)))
