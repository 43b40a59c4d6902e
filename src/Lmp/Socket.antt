-- ===== src/Lmp/Socket.antt =====
-- A connected stream socket as the operating system gives it: `read` is a parameter of the model,
-- with what POSIX says of it.
use socket_speak.Base.{ℕ, ◌≤◌, ◌<◌, ◌≡◌, List, [], ◌++◌, Bool, false, length}

-- The answers of read(2): a count with the bytes, -1 with EINTR, -1 with another error. An empty
-- `got` is a count of 0, the end of the stream.
pub data ReadResult : Type 0 where
  got : List ℕ → ReadResult
  interrupted failed : ReadResult

-- `pending` are the bytes that the peer has sent and that are not read yet, `interrupts` bounds the
-- signals that are still to come, and `healthy` says that no error is to come.
pub record Socket (S : Type 0) : Type 0 where
  pub read : ℕ → S → ReadResult × S
  pub pending : S → List ℕ
  pub interrupts : S → ℕ
  pub healthy : S → Bool

module _ {S : Type 0} (k : Socket S) where
  -- One call `read(fd, p, n)`: the next bytes of the stream, at most `n`, and none only at its end.
  abbrev pub Delivers : ℕ → S → ReadResult → S → Type 0
  Delivers n s (got bs) s' =
      (k.pending s ≡ bs ++ k.pending s')
      × (length bs ≤ n)
      × (bs ≡ [] → k.pending s ≡ [])
      × (k.interrupts s' ≤ k.interrupts s)
      × (k.healthy s' ≡ k.healthy s)
  Delivers n s interrupted s' =
      (k.pending s' ≡ k.pending s)
      × (k.interrupts s' < k.interrupts s)
      × (k.healthy s' ≡ k.healthy s)
  Delivers n s failed s' = k.healthy s ≡ false

  pub record IsStream : Type 0 where
    pub delivers : (n : ℕ) (s : S) → 0 < n → Delivers n s (k.read n s).0 (k.read n s).1
