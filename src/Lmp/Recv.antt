-- ===== src/Lmp/Recv.antt =====
-- `group_lmp_recv` as a function of the bytes on the stream.
use socket_speak.Base.{
  ℕ, zero, suc, ◌+◌, ◌≤◌, ◌<◌, ◌≡◌, refl, inl, inr, List, [], ◌∷◌, true, ◌&&◌, Option, none, some,
  arith, ltb, leb, lt→ltb, suc_ne_zero, ◌==◌, if◌then◌else◌, length, take, drop, Bool-cases,
}
use socket_speak.Lmp.Socket.{Socket, IsStream}
use socket_speak.Lmp.ReadAll.{bytes, read_all, read_all-Reads}
use socket_speak.Lmp.Frame.{
  Header, parse_header, closed, bad_header, too_long, bad_payload, Received, refused, deliver,
  finish_payload, read_payload, after_header, check_header, group_lmp_recv,
}

-- What a header and the bytes behind it make.
abbrev pub parse_payload : List ℕ → Header → List ℕ → Received
parse_payload buf h body =
    if ltb 0 h.payload_len && length body == 0 then refused bad_payload else deliver h buf body

abbrev pub parse_body : ℕ → List ℕ → Option Header → List ℕ → Received × List ℕ
parse_body bufsize buf none rest = (refused bad_header, rest)
parse_body bufsize buf (some h) rest =
    if leb bufsize h.payload_len
    then (refused too_long, rest)
    else (parse_payload buf h (take h.payload_len rest), drop h.payload_len rest)

-- The frame at the start of the bytes, for a buffer of `bufsize` bytes, and the bytes behind it.
unfoldable pub parse_frame : ℕ → List ℕ → List ℕ → Received × List ℕ
parse_frame bufsize buf pending =
    if length pending == 0
    then (refused closed, [])
    else parse_body bufsize buf (parse_header (take 8 pending)) (drop 8 pending)

finish_payload_lem :
    (h : Header) (buf body : List ℕ)
    → 0 < h.payload_len
    → finish_payload h buf (bytes body) ≡ parse_payload buf h body
unfolding finish_payload
finish_payload_lem h buf [] long = rw (lt→ltb 0 h.payload_len long)
finish_payload_lem h buf (b ∷ bs) long = ground arith

parse_payload_none :
    (h : Header) (buf body : List ℕ)
    → h.payload_len ≡ 0
    → parse_payload buf h body ≡ deliver h buf body
parse_payload_none h buf body none' = ground arith

take_zero : (n : ℕ) (xs : List ℕ) → n ≡ 0 → (take n xs ≡ []) × (drop n xs ≡ xs)
take_zero zero xs e = (refl, refl)
take_zero (suc n) xs e = absurd (omega arith)

module _ {S : Type 0} (k : Socket S) where
  -- A call from `s` has the result and leaves the bytes that are expected.
  abbrev pub Agrees : S → Received × S → Received × List ℕ → Type 0
  Agrees s r expected =
      (r.0 ≡ expected.0)
      × (k.pending r.1 ≡ expected.1)
      × (k.healthy r.1 ≡ true)
      × (k.interrupts r.1 ≤ k.interrupts s)

  module _ (stream : IsStream k) (fuel : ℕ) (buf : List ℕ) where
    read_payload-Agrees :
        (h : Header) (s : S)
        → k.healthy s ≡ true
        → h.payload_len + k.interrupts s < fuel
        → Agrees s (read_payload k fuel h buf s) (
          parse_payload buf h (take h.payload_len (k.pending s)),
          drop h.payload_len (k.pending s),
        )
    unfolding read_payload
    read_payload-Agrees h s healthy enough = elim (Bool-cases (ltb 0 h.payload_len)) [
      | inl long ↦
          let (e, rest, healthy', calm) =
            read_all-Reads k stream fuel h.payload_len s healthy enough in
          ground (
            arith,
            e,
            rest,
            healthy',
            calm,
            finish_payload_lem h buf (take h.payload_len (k.pending s)),
          )
      | inr short ↦
          ground
            (arith, healthy, take_zero h.payload_len (k.pending s), parse_payload_none h buf [])
    ]

    after_header-Agrees :
        (bufsize : ℕ) (o : Option Header) (s : S)
        → k.healthy s ≡ true
        → bufsize + k.interrupts s < fuel
        → Agrees s (after_header k fuel bufsize buf o s) (parse_body bufsize buf o (k.pending s))
    unfolding after_header
    after_header-Agrees bufsize none s healthy enough = (refl, refl, healthy, omega arith)
    after_header-Agrees bufsize (some h) s healthy enough =
        elim (Bool-cases (leb bufsize h.payload_len)) [
          | inl big ↦ rw big (refl, refl, healthy, omega arith)
          | inr fits ↦ rw fits (read_payload-Agrees h s healthy (ground arith))
        ]

    check_header-Agrees :
        (bufsize : ℕ) (pending : List ℕ) (s t : S)
        → k.pending t ≡ drop 8 pending
        → k.healthy t ≡ true
        → k.interrupts t ≤ k.interrupts s
        → bufsize + k.interrupts t < fuel
        → Agrees s
            (check_header k fuel bufsize buf (bytes (take 8 pending)) t)
            (parse_frame bufsize buf pending)
    unfolding check_header parse_frame
    check_header-Agrees bufsize [] s t rest healthy calm enough = (refl, rest, healthy, calm)
    check_header-Agrees bufsize (b ∷ bs) s t rest healthy calm enough =
        let h = parse_header (b ∷ take 7 bs) in
        let (e, left, healthy', calm') = after_header-Agrees bufsize h t healthy enough in
        rw (suc_ne_zero (length bs), ← rest) (e, left, healthy', omega arith)

    -- On a stream without errors, with fuel above the buffer size, 8 and the interrupts,
    -- group_lmp_recv returns the message or the error that parse_frame says of the pending bytes,
    -- leaves the bytes that it says, and the stream stays without errors.
    pub group_lmp_recv-Agrees :
        (bufsize : ℕ) (s : S)
        → k.healthy s ≡ true
        → bufsize + 8 + k.interrupts s < fuel
        → Agrees s (group_lmp_recv k fuel bufsize buf s) (parse_frame bufsize buf (k.pending s))
    unfolding group_lmp_recv
    group_lmp_recv-Agrees bufsize s healthy enough =
        let (e, rest, healthy', calm) = read_all-Reads k stream fuel 8 s healthy (omega arith) in
        rw e (
          check_header-Agrees bufsize (k.pending s) s (read_all k fuel 8 s).1 rest healthy' calm
            (omega arith))
