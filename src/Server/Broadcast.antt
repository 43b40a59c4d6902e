-- ===== src/Server/Broadcast.antt =====
-- Who gets what: a message that is passed on goes once to every other client.
use socket_speak.Base.{
  ℕ, ◌+◌, ◌%◌, ◌≡◌, refl, ap, List, [], ◌∷◌, ◌++◌, ◌||◌, ◌==◌, if◌then◌else◌, count, arith,
}
use socket_speak.Server.State.{Server, Send}
use socket_speak.Server.Handler.Frames.{Env, others, frames, send_to_others}
use socket_speak.Server.Handler.Dispatch.{handle_other}

-- How many frames went to a descriptor.
unfoldable pub count_to : ℕ → List Send → ℕ
count_to fd [] = 0
count_to fd (f ∷ fs) = (if f.fd == fd then 1 else 0) + count_to fd fs

count_to-append :
    (fd : ℕ) (fs gs : List Send) → count_to fd (fs ++ gs) ≡ count_to fd fs + count_to fd gs
unfolding count_to
count_to-append fd [] gs = omega arith
count_to-append fd (f ∷ fs) gs = omega (arith, count_to-append fd fs gs)

count_to-frames :
    (fd type sender : ℕ) (payload fds : List ℕ)
    → count_to fd (frames type sender payload fds) ≡ count fd fds
unfolding count_to
count_to-frames fd type sender payload [] = refl
count_to-frames fd type sender payload (g ∷ fds) =
    ap (λ n. (if g == fd then 1 else 0) + n) (count_to-frames fd type sender payload fds)

count-others :
    (listener skipped fd : ℕ) (fds : List ℕ)
    → count fd (others listener skipped fds)
      ≡ (if fd == listener || fd == skipped then 0 else count fd fds)
unfolding others
count-others listener skipped fd [] = ground arith
count-others listener skipped fd (g ∷ fds) = ground (arith, count-others listener skipped fd fds)

-- When a message is passed on, each descriptor gets as many frames as it is in the poll array, so
-- one for a client that is connected once; the listener and the sender get none.
pub handle_other-count :
    (env : Env) (sender_fd j type fd : ℕ) (payload : List ℕ) (s : Server)
    → count_to fd (handle_other env sender_fd j type payload s).sends
      ≡ count_to fd s.sends + (if fd == env.listener || fd == sender_fd then 0 else count fd s.pfds)
unfolding handle_other send_to_others
handle_other-count env sender_fd j type fd payload s =
    let reached = others env.listener sender_fd s.pfds in
    omega (
      arith,
      count_to-append fd s.sends (frames type (j % 256) payload reached),
      count_to-frames fd type (j % 256) payload reached,
      count-others env.listener sender_fd fd s.pfds,
    )
