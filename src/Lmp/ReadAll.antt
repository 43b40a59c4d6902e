-- ===== src/Lmp/ReadAll.antt =====
-- `read_all` (lmp.c), the loop that fills a buffer from a stream.
use socket_speak.Base.{
  ℕ, zero, suc, ◌+◌, ◌-◌, ◌≤◌, ◌<◌, ◌≡◌, refl, sym, ◌∙◌, ap, List, [], ◌∷◌, ◌++◌, true, arith,
  suc_ne_zero, length, take, drop, ◌==◌, if◌then◌else◌, take-append_le, drop-append_le,
}
use mathlib.Core.List.{append-nil, append_assoc}
use socket_speak.Lmp.Socket.{ReadResult, got, interrupted, failed, Socket, IsStream, Delivers}

-- What `read_all` returns: the bytes that it stored, or -1. `blocked` is no C value: the fuel ran out.
pub data Filled : Type 0 where
  bytes : List ℕ → Filled
  error blocked : Filled

module _ {S : Type 0} where
  -- One answer of `read`; `loop` is the rest of the `while`.
  after_read : (ℕ → List ℕ → S → Filled × S) → ℕ → List ℕ → ReadResult → S → Filled × S
  after_read loop wanted stored (got []) s = (bytes stored, s)
  after_read loop wanted stored (got (b ∷ bs)) s =
      loop (wanted - length (b ∷ bs)) (stored ++ (b ∷ bs)) s
  after_read loop wanted stored interrupted s = loop wanted stored s
  after_read loop wanted stored failed s = (error, s)

  -- `wanted` is n - total, and `stored` are the first `total` bytes of the buffer.
  read_loop : Socket S → ℕ → ℕ → List ℕ → S → Filled × S
  read_loop k zero wanted stored s = (blocked, s)
  read_loop k (suc fuel) wanted stored s =
      let next =
        after_read (read_loop k fuel) wanted stored (k.read wanted s).0 (k.read wanted s).1 in
      if wanted == 0 then (bytes stored, s) else next

  unfoldable pub read_all : Socket S → ℕ → ℕ → S → Filled × S
  unfolding read_loop after_read
  read_all k fuel n s = read_loop k fuel n [] s

abbrev empty_bytes : List ℕ
empty_bytes = []

module _ {S : Type 0} (k : Socket S) where
  -- From `s`, `r` holds the next `n` bytes of the stream, or all that are left, behind `stored`.
  abbrev pub Reads : ℕ → List ℕ → S → Filled × S → Type 0
  Reads n stored s r =
      (r.0 ≡ bytes (stored ++ take n (k.pending s)))
      × (k.pending r.1 ≡ drop n (k.pending s))
      × (k.healthy r.1 ≡ true)
      × (k.interrupts r.1 ≤ k.interrupts s)

  Reads-got :
      (n b : ℕ) (bs stored : List ℕ) (s s' : S) (r : Filled × S)
      → Delivers k n s (got (b ∷ bs)) s'
      → Reads (n - length (b ∷ bs)) (stored ++ (b ∷ bs)) s' r
      → Reads n stored s r
  Reads-got n b bs stored s s' r (split, fits, _, fewer, same) (e, rest, healthy, calm) = rw split (
    e
        ∙ ap bytes (
            append_assoc stored (b ∷ bs) _
            ∙ ap (λ t. stored ++ t) (sym (take-append_le (b ∷ bs) _ n fits))),
    rest ∙ sym (drop-append_le (b ∷ bs) _ n fits),
    healthy,
    omega arith,
  )

  Reads-interrupted :
      (n : ℕ) (stored : List ℕ) (s s' : S) (r : Filled × S)
      → Delivers k n s interrupted s'
      → Reads n stored s' r
      → Reads n stored s r
  Reads-interrupted n stored s s' r (same, fewer, _) (e, rest, healthy, calm) =
      rw (← same) (e, rest, healthy, omega arith)

  take_none : (n : ℕ) → take n (empty_bytes) ≡ []
  take_none zero = refl
  take_none (suc n) = refl

  drop_none : (n : ℕ) → drop n (empty_bytes) ≡ []
  drop_none zero = refl
  drop_none (suc n) = refl

  -- One round, the rest of the loop given.
  after_read-Reads :
      (loop : ℕ → List ℕ → S → Filled × S) (fuel n : ℕ) (stored : List ℕ) (s s' : S)
      (r : ReadResult)
      → ((m : ℕ) (stored' : List ℕ) (t : S)
          → k.healthy t ≡ true
          → m + k.interrupts t < fuel
          → Reads m stored' t (loop m stored' t))
      → Delivers k n s r s'
      → k.healthy s ≡ true
      → n + k.interrupts s < suc fuel
      → Reads n stored s (after_read loop n stored r s')
  unfolding after_read
  after_read-Reads loop fuel n stored s s' (got []) rest (split, fits, ends, fewer, same) healthy
        enough =
      rw (ends refl) (
        ap bytes (sym (append-nil stored) ∙ ap (λ t. stored ++ t) (sym (take_none n))),
        sym (rw (ends refl) at split) ∙ sym (drop_none n),
        same ∙ healthy,
        fewer,
      )
  after_read-Reads loop fuel n stored s s' (got (b ∷ bs)) rest d healthy enough =
      Reads-got n b bs stored s s' _ d
        (rest (n - length (b ∷ bs)) (stored ++ (b ∷ bs)) s' (d.4 ∙ healthy) (omega arith))
  after_read-Reads loop fuel n stored s s' interrupted rest d healthy enough =
      Reads-interrupted n stored s s' _ d (rest n stored s' (d.2 ∙ healthy) (omega arith))
  after_read-Reads loop fuel n stored s s' failed rest d healthy enough = cc

  module _ (stream : IsStream k) where
    read_loop-Reads :
        (fuel n : ℕ) (stored : List ℕ) (s : S)
        → k.healthy s ≡ true
        → n + k.interrupts s < fuel
        → Reads n stored s (read_loop k fuel n stored s)
    unfolding read_loop
    read_loop-Reads zero n stored s healthy enough = absurd (omega arith)
    read_loop-Reads (suc fuel) zero stored s healthy enough =
        (ap bytes (sym (append-nil stored)), refl, healthy, omega arith)
    read_loop-Reads (suc fuel) (suc n) stored s healthy enough = rw (suc_ne_zero n) (
        after_read-Reads (read_loop k fuel) fuel (suc n) stored s _ _ (read_loop-Reads fuel)
          (stream.delivers (suc n) s (omega arith)) healthy enough)

    -- On a stream without errors, with fuel above n and the interrupts, read_all returns the next
    -- n bytes of the stream, or all that are left if it ends before, takes these and no more, and
    -- the stream stays without errors.
    pub read_all-Reads :
        (fuel n : ℕ) (s : S)
        → k.healthy s ≡ true
        → n + k.interrupts s < fuel
        → Reads n [] s (read_all k fuel n s)
    unfolding read_all
    read_all-Reads fuel n s healthy enough = read_loop-Reads fuel n [] s healthy enough
