-- ===== src/Server/Turns.antt =====
-- A round over the poll array, when the frames of the clients come whole or are refused.
use socket_speak.Base.{
  ℕ, zero, suc, ◌+◌, ◌≤◌, ◌<◌, ◌≡◌, refl, sym, ap, ◌∙◌, inl, inr, List, [], ◌∷◌, ◌++◌, Bool, true,
  false, Option, none, some, ◌==◌, ltb, ltb→lt, if◌then◌else◌, length, get_elem?, get_elem?-lt,
  Bool-cases, arith,
}
use mathlib.Core.List.{append-nil, append_assoc}
use socket_speak.Lmp.Frame.{Received, message, refused, stuck}
use socket_speak.Server.State.{Server, GroupMember}
use socket_speak.Server.Pollset.{handle_new_connection}
use socket_speak.Server.Handler.Frames.{Env}
use socket_speak.Server.Handler.Dispatch.{handle_client_data}
use socket_speak.Server.Clients.{clients}
use socket_speak.Server.Roster.{
  Event, enters, leaves, speaks, Change, read_event, Changes, none_yet, then_one, Settled,
  IsOrdinary, some_inj, handle_client_data-Settled,
}
use socket_speak.Server.Connections.{
  Calls, is_ready, moved_events, visit, finished, process_connections,
}

-- The clients that enter in a list of events, the last event first; they are in their order.
abbrev pub entered : List Event → List (ℕ × GroupMember)
entered [] = []
entered (enters fd m ∷ es) = entered es ++ ((fd, m) ∷ [])
entered (leaves k ∷ es) = entered es
entered (speaks ∷ es) = entered es

-- Events that lead from one list of clients to another, in which just these clients enter.
abbrev pub Moved : List (ℕ × GroupMember) → List (ℕ × GroupMember) → List (ℕ × GroupMember) → Type 0
Moved old new comers = (es : List Event) × Changes old es new × (entered es ≡ comers)

Changes-append :
    {a b c : List (ℕ × GroupMember)} {es fs : List Event}
    → Changes a es b
    → Changes b fs c
    → Changes a (fs ++ es) c
Changes-append h none_yet = h
Changes-append h (then_one before change) = then_one (Changes-append h before) change

entered-append : (fs es : List Event) → entered (fs ++ es) ≡ entered es ++ entered fs
entered-append [] es = sym (append-nil (entered es))
entered-append (enters fd m ∷ fs) es =
    ap (λ q. q ++ ((fd, m) ∷ [])) (entered-append fs es)
    ∙ append_assoc (entered es) (entered fs) ((fd, m) ∷ [])
entered-append (leaves k ∷ fs) es = entered-append fs es
entered-append (speaks ∷ fs) es = entered-append fs es

pub Moved-append :
    {a b c xs ys : List (ℕ × GroupMember)} → Moved a b xs → Moved b c ys → Moved a c (xs ++ ys)
Moved-append {a} {b} {c} {xs} {ys} (es, h, e) (fs, k, f) = (
  fs ++ es,
  Changes-append h k,
  entered-append fs es ∙ ap (λ q. q ++ entered fs) e ∙ ap (λ q. xs ++ q) f,
)

-- What is read from a client makes nobody enter.
read_event-Moved :
    {old new : List (ℕ × GroupMember)} (k : ℕ) (r : Received)
    → Change (read_event k r) old new
    → Moved old new []
read_event-Moved k (message m) h = (speaks ∷ [], then_one none_yet h, refl)
read_event-Moved k (refused e) h = (leaves k ∷ [], then_one none_yet h, refl)
read_event-Moved k stuck h = (speaks ∷ [], then_one none_yet h, refl)

-- Where the listener is.
abbrev pub Listens : Env → Server → Type 0
Listens env s = get_elem? s.pfds 0 ≡ some env.listener

-- What a turn leaves.
abbrev Visited : Env → ℕ → Server → Option (Server × List Bool × ℕ) → Type 0
Visited env i s r =
    (t : Server) × (events : List Bool) × (next : ℕ) × (r ≡ some (t, events, next))
    × Settled t
    × Listens env t
    × (length t.pfds + suc i ≡ length s.pfds + next)
    × (length t.pfds ≤ length s.pfds)
    × Moved (clients s) (clients t) []

module _ (env : Env) (received : Received) (i : ℕ) (events : List Bool) (s : Server) where
  pub visit_quiet :
      (accepted : Option ℕ) (fd : ℕ)
      → get_elem? s.pfds i ≡ some fd
      → is_ready i events ≡ false
      → visit env received accepted i events s ≡ some (s, events, suc i)
  unfolding visit
  visit_quiet accepted fd at quiet = rw (at, visit) (rw quiet refl)

  pub visit_listener :
      (fd : ℕ)
      → get_elem? s.pfds i ≡ some fd
      → is_ready i events ≡ true
      → (fd == env.listener) ≡ true
      → visit env received none i events s ≡ some (s, events, suc i)
  unfolding visit handle_new_connection
  visit_listener fd at ready same = rw (at, visit) (rw (ready, same) refl)

  pub visit_client :
      (fd next : ℕ) (t : Server)
      → get_elem? s.pfds i ≡ some fd
      → is_ready i events ≡ true
      → (fd == env.listener) ≡ false
      → handle_client_data env i received s ≡ some (t, next)
      → visit env received none i events s
        ≡ some (t, (if next == i then events else moved_events i events), suc next)
  unfolding visit
  visit_client fd next t at ready other done = rw (at, visit) (rw (ready, other, done) refl)

module _ (env : Env) (received : Received) (ordinary : IsOrdinary received) (events : List Bool)
    (s : Server) (settled : Settled s) (here : Listens env s) where
  unchanged :
      (i : ℕ)
      → visit env received none i events s ≡ some (s, events, suc i)
      → Visited env i s (visit env received none i events s)
  unchanged i e = (s, events, suc i, e, settled, here, refl, omega arith, ([], none_yet, refl))

  visit-Visited : (i : ℕ) → i < length s.pfds → Visited env i s (visit env received none i events s)
  visit-Visited i inside =
      let (fd, at) = get_elem?-lt s.pfds i inside in
      elim (Bool-cases (is_ready i events)) [
        | inr quiet ↦ unchanged i (visit_quiet env received i events s none fd at quiet)
        | inl ready ↦ elim (Bool-cases (fd == env.listener)) [
          | inl same ↦ unchanged i (visit_listener env received i events s fd at ready same)
          | inr other ↦ from_client i inside fd at ready other
        ]
      ]
    where
      from_client :
          (i : ℕ)
          → i < length s.pfds
          → (fd : ℕ) → get_elem? s.pfds i ≡ some fd
          → is_ready i events ≡ true
          → (fd == env.listener) ≡ false
          → Visited env i s (visit env received none i events s)
      from_client zero inside fd at ready other =
          let same : fd ≡ env.listener = some_inj fd env.listener (sym at ∙ here) in
          ground (arith, same)
      from_client (suc k) inside fd at ready other =
          let (t, next, done, after, change, moved, first, fewer) =
            handle_client_data-Settled env s settled k received inside ordinary in
          (
            t,
            _,
            suc next,
            visit_client env received (suc k) events s fd next t at ready other done,
            after,
            first ∙ here,
            omega arith,
            fewer,
            read_event-Moved k received change,
          )

module _ (env : Env) (calls : Calls) (fuel i : ℕ) (events : List Bool) (s : Server) where
  pub process_connections_over :
      ltb i (length s.pfds) ≡ false
      → process_connections env calls (suc fuel) i events s ≡ finished s
  unfolding process_connections
  process_connections_over over = rw (over, process_connections) refl

  pub process_connections_turn :
      (next : ℕ) (events' : List Bool) (t : Server)
      → ltb i (length s.pfds) ≡ true
      → visit env (calls.received fuel) (calls.accepted fuel) i events s ≡ some (t, events', next)
      → process_connections env calls (suc fuel) i events s
        ≡ process_connections env calls fuel next events' t
  unfolding process_connections
  process_connections_turn next events' t inside done =
      rw (inside, process_connections) (rw done refl)

-- From any index on.
pub process_connections-from :
    (env : Env) (calls : Calls) (fuel i : ℕ) (events : List Bool) (s : Server)
    → Settled s
    → Listens env s
    → ((n : ℕ) → IsOrdinary (calls.received n))
    → ((n : ℕ) → calls.accepted n ≡ none)
    → i ≤ length s.pfds
    → length s.pfds < i + fuel
    → (t : Server) × (process_connections env calls fuel i events s ≡ finished t)
      × Settled t
      × Listens env t
      × (length t.pfds ≤ length s.pfds)
      × Moved (clients s) (clients t) []
process_connections-from env calls zero i events s settled here ordinary quiet low enough =
    absurd (omega arith)
process_connections-from env calls (suc fuel) i events s settled here ordinary quiet low enough =
    elim (Bool-cases (ltb i (length s.pfds))) [
      | inr over ↦ (
        s,
        process_connections_over env calls fuel i events s over,
        settled,
        here,
        omega arith,
        ([], none_yet, refl),
      )
      | inl inside ↦
          let within = ltb→lt i (length s.pfds) inside in
          let (t, events', next, done, after, first, moved, fewer, some_changes) =
            visit-Visited env (calls.received fuel) (ordinary fuel) events s settled here i
              within in
          let (u, rest, last, at, less, changes) =
            process_connections-from env calls fuel next events' t after first ordinary quiet
              (omega arith) (omega arith) in
          (
            u,
            process_connections_turn env calls fuel i events s next events' t inside
                  (ap (λ a. visit env (calls.received fuel) a i events s) (quiet fuel) ∙ done)
                ∙ rest,
            last,
            at,
            omega arith,
            Moved-append some_changes changes,
          )
    ]
