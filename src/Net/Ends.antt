-- ===== src/Net/Ends.antt =====
-- The descriptors that a main program opens and closes (main.c, gclient.c).
use socket_speak.Base.{
  ℕ, ◌+◌, ◌≡◌, refl, subst, inl, inr, List, ◌++◌, Bool, true, false, Option, none, some, count,
  count-append, Bool-cases, arith,
}
use socket_speak.Net.Calls.{
  Returned, returned, exits, waits, Outcome, PollAnswer, AcceptAnswer, all_done,
  listen_for_connection, connect_to,
}
use socket_speak.Net.Leaks.{handed_out, Accounts, listen_for_connection-Accounts}
use socket_speak.Net.Programs.{
  broadcast, listen_for_broadcast, then_next, connected, become_server, main_program,
}

-- The same with a descriptor taken over, which is closed or handed on.
abbrev pub Pays : Option ℕ → Returned → Outcome → Type 0
Pays taken (returned r) o =
    (fd : ℕ) → count fd o.opened + handed_out fd taken ≡ count fd o.closed + handed_out fd r
Pays taken exits o = Unit {0}
Pays taken waits o = Unit {0}

abbrev pub IsPaid : Option ℕ → Outcome → Type 0
IsPaid taken o = Pays taken o.result o

pub Accounts-Pays : (r : Returned) (o : Outcome) → Accounts r o → Pays none r o
Accounts-Pays (returned r) o h = λ fd. omega (arith, h fd)
Accounts-Pays exits o h = tt
Accounts-Pays waits o h = tt

pub Pays-Accounts : (r : Returned) (o : Outcome) → Pays none r o → Accounts r o
Pays-Accounts (returned r) o h = λ fd. omega (arith, h fd)
Pays-Accounts exits o h = tt
Pays-Accounts waits o h = tt

-- The sum of two outcomes, the first of which handed `mid` on.
then-Pays :
    (taken mid : Option ℕ) (o p : Outcome) (r : Returned)
    → ((fd : ℕ) → count fd o.opened + handed_out fd taken ≡ count fd o.closed + handed_out fd mid)
    → Pays mid r p
    → Pays taken r
        (record { result = r; opened = o.opened ++ p.opened; closed = o.closed ++ p.closed })
then-Pays taken mid o p (returned r) h k = λ fd.
    omega (arith, h fd, k fd, count-append fd o.opened p.opened, count-append fd o.closed p.closed)
then-Pays taken mid o p exits h k = tt
then-Pays taken mid o p waits h k = tt

then_next-IsPaid :
    (taken : Option ℕ) (r : Returned) (opened closed : List ℕ) (next : Option ℕ → Outcome)
    → let o : Outcome = record { result = r; opened = opened; closed = closed } in
      Pays taken r o
      → ((mid : Option ℕ) → r ≡ returned mid → IsPaid mid (next mid))
      → IsPaid taken (then_next o next)
then_next-IsPaid taken (returned mid) opened closed next h k =
    let o : Outcome = record { result = returned mid; opened = opened; closed = closed } in
    then-Pays taken mid o (next mid) (next mid).result h (k mid refl)
then_next-IsPaid taken exits opened closed next h k = tt
then_next-IsPaid taken waits opened closed next h k = tt

pub next-IsPaid :
    (taken : Option ℕ) (o : Outcome) (next : Option ℕ → Outcome)
    → IsPaid taken o
    → ((mid : Option ℕ) → o.result ≡ returned mid → IsPaid mid (next mid))
    → IsPaid taken (then_next o next)
next-IsPaid taken o next h k = then_next-IsPaid taken o.result o.opened o.closed next h k

-- A function that never hands a descriptor on.
abbrev pub IsBare : Outcome → Type 0
IsBare o = (mid : Option ℕ) → o.result ≡ returned mid → none ≡ mid

broadcast-IsPaid :
    (address sock : Option ℕ) (options : List Bool) → IsPaid none (broadcast address sock options)
unfolding broadcast
broadcast-IsPaid none sock options = tt
broadcast-IsPaid (some address) none options = tt
broadcast-IsPaid (some address) (some sock) options = elim (Bool-cases (all_done options)) [
  | inl well ↦ rw (well, broadcast) (λ fd. refl)
  | inr failed ↦ rw (failed, broadcast) tt
]

listen_for_broadcast-IsPaid :
    (sock : Option ℕ) (steps : List Bool) (heard : Option (List ℕ))
    → IsPaid none (listen_for_broadcast sock steps heard)
unfolding listen_for_broadcast
listen_for_broadcast-IsPaid none steps heard = tt
listen_for_broadcast-IsPaid (some sock) steps none = tt
listen_for_broadcast-IsPaid (some sock) steps (some datagram) = elim (Bool-cases (all_done steps)) [
  | inl well ↦ rw (well, listen_for_broadcast) (λ fd. refl)
  | inr failed ↦ rw (failed, listen_for_broadcast) tt
]

broadcast-IsBare :
    (address sock : Option ℕ) (options : List Bool) → IsBare (broadcast address sock options)
unfolding broadcast
broadcast-IsBare none sock options = λ mid e. ground arith
broadcast-IsBare (some address) none options = λ mid e. ground arith
broadcast-IsBare (some address) (some sock) options = λ mid e. ground arith

listen_for_broadcast-IsBare :
    (sock : Option ℕ) (steps : List Bool) (heard : Option (List ℕ))
    → IsBare (listen_for_broadcast sock steps heard)
unfolding listen_for_broadcast
listen_for_broadcast-IsBare none steps heard = λ mid e. ground arith
listen_for_broadcast-IsBare (some sock) steps none = λ mid e. ground arith
listen_for_broadcast-IsBare (some sock) steps (some datagram) = λ mid e. ground arith

-- A connection that fails leaves its socket open, but ends the program.
connect_to-IsPaid :
    (sock : Option ℕ) (options reached : Bool)
    → IsPaid none (then_next (connect_to sock options reached) connected)
unfolding connect_to connected
connect_to-IsPaid none options reached = tt
connect_to-IsPaid (some sock) false reached = tt
connect_to-IsPaid (some sock) true false = tt
connect_to-IsPaid (some sock) true true = λ fd. refl

become_server-IsPaid :
    (hears calls : Outcome)
    → IsPaid none hears
    → IsBare hears
    → IsPaid none (then_next calls connected)
    → (mid : Option ℕ) → IsPaid mid (become_server hears calls mid)
unfolding become_server
become_server-IsPaid hears calls h bare k none =
    next-IsPaid none hears (λ _. then_next calls connected) h
      (λ mid e. subst (λ m. IsPaid m (then_next calls connected)) (bare mid e) k)
become_server-IsPaid hears calls h bare k (some sock) = λ fd. omega arith

-- If the main program returns from its calls of broadcast, listen_for_connection,
-- listen_for_broadcast and connect_to and from the chat, whatever the operating system answered to
-- them, then every descriptor that it opened is closed. It is said of the returns only: where it
-- exits, nothing is said.
pub main_program-Accounts :
    (address announcing : Option ℕ) (announced : List Bool)
    → (listening : Option ℕ) (set_up : Bool) (polls : List PollAnswer) (accepts : List AcceptAnswer)
      (reset : Bool)
    → (hearing : Option ℕ) (steps : List Bool) (heard : Option (List ℕ))
    → (calling : Option ℕ) (options reached : Bool)
    → let o =
        main_program
          (broadcast address announcing announced)
          (listen_for_connection listening set_up polls accepts reset)
          (listen_for_broadcast hearing steps heard)
          (connect_to calling options reached) in
      Accounts o.result o
unfolding main_program
main_program-Accounts address announcing announced listening set_up polls accepts reset hearing
      steps heard calling options reached =
    let announces = broadcast address announcing announced in
    let listens = listen_for_connection listening set_up polls accepts reset in
    let hears = listen_for_broadcast hearing steps heard in
    let calls = connect_to calling options reached in
    let rest = then_next listens (become_server hears calls) in
    let listened =
      Accounts-Pays listens.result listens
        (listen_for_connection-Accounts listening set_up polls accepts reset) in
    let served =
      become_server-IsPaid hears calls (listen_for_broadcast-IsPaid hearing steps heard)
        (listen_for_broadcast-IsBare hearing steps heard)
        (connect_to-IsPaid calling options reached) in
    let o = main_program announces listens hears calls in
    Pays-Accounts o.result o (
      next-IsPaid none announces (λ _. rest) (broadcast-IsPaid address announcing announced)
        (λ mid e.
          subst (λ m. IsPaid m rest) (broadcast-IsBare address announcing announced mid e)
            (next-IsPaid none listens (become_server hears calls) listened (λ m _. served m))))
