-- ===== src/Lmp/RoundTrip.antt =====
-- What one side of a connection sends is what the other side receives.
use socket_speak.Base.{
  ℕ, ◌/◌, ◌%◌, ◌^◌, ◌≤◌, ◌<◌, ◌≡◌, refl, sym, ap, ◌∙◌, inl, inr, List, [], ◌∷◌, ◌++◌, false, Option,
  some, arith, leb, ◌==◌, length, take, drop, take_all, drop_all, Option-cases, All, cstr,
  take-append_exact, drop-append_exact, ◌≢◌, suc_ne_zero,
}
use mathlib.Core.List.{append-nil, append_assoc}
use socket_speak.Lmp.Frame.{
  htonl, ntohl, header, success, send_payload, write_frame, lmp_send, group_lmp_send, parse_header,
  Received, message, fill,
}
use socket_speak.Lmp.Recv.{parse_payload, parse_frame}

-- The bytes of a frame.
abbrev pub frame : ℕ → ℕ → List ℕ → List ℕ
frame type reserved payload = header type reserved (length payload) ++ payload

ntohl-htonl :
    (n : ℕ)
    → n < 2 ^ 32
    → ntohl (n / 16777216 % 256) (n / 65536 % 256) (n / 256 % 256) (n % 256) ≡ n
unfolding ntohl
ntohl-htonl n h = omega arith

parse_header-header :
    (type reserved len : ℕ) (rest : List ℕ)
    → len < 2 ^ 32
    → (parse_header (take 8 (header type reserved len ++ rest))
        ≡ some (record { type = type; reserved = reserved; payload_len = len }))
      × (drop 8 (header type reserved len ++ rest) ≡ rest)
unfolding parse_header header htonl
parse_header-header type reserved len rest h = (
  ap (λ n. some (record { type = type; reserved = reserved; payload_len = n })) (ntohl-htonl len h),
  refl,
)

-- A header that announces `len` bytes, in front of whatever follows.
parse_frame-header :
    (bufsize : ℕ) (buf : List ℕ) (type reserved len : ℕ) (body : List ℕ)
    → len < 2 ^ 32
    → len < bufsize
    → parse_frame bufsize buf (header type reserved len ++ body) ≡ (
      parse_payload buf
          (record { type = type; reserved = reserved; payload_len = len })
          (take len body),
      drop len body,
    )
unfolding parse_frame
parse_frame-header bufsize buf type reserved len body word fits =
    let (e, rest) = parse_header-header type reserved len body word in
    rw (header_ne type reserved len body) (rw (e, rest) (rw (too_small bufsize len fits)))
  where
    too_small : (n m : ℕ) → m < n → leb n m ≡ false
    too_small n m h = ground arith

    header_ne :
        (type reserved len : ℕ) (body : List ℕ)
        → (length (header type reserved len ++ body) == 0) ≡ false
    header_ne type reserved len body = unfold header in suc_ne_zero _

-- A frame is read back whole: type, sender and payload, with what follows it left on the stream.
pub parse_frame-frame :
    (bufsize : ℕ) (buf : List ℕ) (type reserved : ℕ) (payload rest : List ℕ)
    → length payload < 2 ^ 32
    → length payload < bufsize
    → parse_frame bufsize buf (frame type reserved payload ++ rest) ≡ (
      message (record {
        type = type;
        sender = reserved;
        len = length payload;
        buf = fill buf payload (length payload);
      }),
      rest,
    )
parse_frame-frame bufsize buf type reserved payload rest word fits =
    rw (append_assoc (header type reserved (length payload)) payload rest) (
      rw (parse_frame-header bufsize buf type reserved (length payload) (payload ++ rest) word fits)
        (rw (take-append_exact, drop-append_exact) (whole payload)))
  where
    whole :
        (p : List ℕ)
        → ◌≡◌ {A = Received × List ℕ}
            (
              parse_payload buf
                  (record { type = type; reserved = reserved; payload_len = length p })
                  p,
              rest,
            )
            (
              message (record {
                type = type;
                sender = reserved;
                len = length p;
                buf = fill buf p (length p);
              }),
              rest,
            )
    whole [] = refl
    whole (b ∷ bs) = rw (suc_ne_zero (length bs)) (ground arith)

-- A string function sees the payload in the buffer: it has no NUL of its own, and its NUL fits.
pub cstr-fill :
    (buf payload : List ℕ)
    → All (λ b. b ≢ 0) payload
    → length payload < length buf
    → cstr (fill buf payload (length payload)) ≡ payload
unfolding cstr fill
cstr-fill [] payload clean fits = elim fits [ ]
cstr-fill (c ∷ cs) [] clean fits = refl
cstr-fill (c ∷ cs) (b ∷ bs) clean fits = ground (arith, cstr-fill cs bs)

-- A frame that breaks off inside its payload, with at least one byte of it.
pub parse_frame_cut :
    (bufsize : ℕ) (buf : List ℕ) (type reserved len : ℕ) (part : List ℕ)
    → len < 2 ^ 32
    → len < bufsize
    → 0 < length part
    → length part < len
    → parse_frame bufsize buf (header type reserved len ++ part) ≡ (
      message (record { type = type; sender = reserved; len = len; buf = fill buf part len }),
      [],
    )
parse_frame_cut bufsize buf type reserved len part word fits some_ short =
    rw (parse_frame-header bufsize buf type reserved len part word fits)
      (rw (take_all len part (omega arith), drop_all len part (omega arith)) (ground arith))

-- send(2) on stream sockets: `sent s fd` are the bytes written to a descriptor so far. A call that
-- succeeds returns how many bytes it has taken, from the first one.
pub record IsWire {S : Type 0} (send : ℕ → List ℕ → S → Option ℕ × S) (sent : S → ℕ → List ℕ)
    : Type 0 where
  pub takes :
      (fd : ℕ) (bs : List ℕ) (s : S) (n : ℕ)
      → (send fd bs s).0 ≡ some n
      → (n ≤ length bs) × (sent (send fd bs s).1 fd ≡ sent s fd ++ take n bs)

-- No call takes less than all of its bytes. send(2) may, after a signal or a time-out (SO_SNDTIMEO),
-- and the functions that send a frame only look for an error.
abbrev pub IsWhole : {S : Type 0} → (ℕ → List ℕ → S → Option ℕ × S) → Type 0
IsWhole {S} send =
    (fd : ℕ) (bs : List ℕ) (s : S) (n : ℕ) → (send fd bs s).0 ≡ some n → n ≡ length bs

take_self : (xs : List ℕ) → take (length xs) xs ≡ xs
take_self [] = refl
take_self (x ∷ xs) = ap (λ r. x ∷ r) (take_self xs)

module _ {S : Type 0} (send : ℕ → List ℕ → S → Option ℕ × S) (sent : S → ℕ → List ℕ)
    (wire : IsWire send sent) (whole : IsWhole send) where
  takes_all :
      (fd : ℕ) (bs : List ℕ) (s : S) (n : ℕ)
      → (send fd bs s).0 ≡ some n
      → sent (send fd bs s).1 fd ≡ sent s fd ++ bs
  takes_all fd bs s n e =
      let (_, taken) = wire.takes fd bs s n e in
      taken
      ∙ ap (λ k. sent s fd ++ take k bs) (whole fd bs s n e)
      ∙ ap (λ t. sent s fd ++ t) (take_self bs)

  send_payload-sent :
      (fd : ℕ) (payload : List ℕ) (s : S)
      → (send_payload send fd payload (length payload) s).0 ≡ success
      → sent (send_payload send fd payload (length payload) s).1 fd ≡ sent s fd ++ payload
  unfolding send_payload
  send_payload-sent fd [] s h = sym (append-nil (sent s fd))
  send_payload-sent fd (b ∷ bs) s h =
      elim (Option-cases (send fd (take (length (b ∷ bs)) (b ∷ bs)) s).0) [
        | inl e ↦ ground arith
        | inr (n, e) ↦
            ground (arith, takes_all fd (take (length (b ∷ bs)) (b ∷ bs)) s n e, take_self bs)
      ]

  write_frame-sent :
      (fd type reserved : ℕ) (payload : List ℕ) (s : S)
      → (write_frame send fd type reserved payload (length payload) s).0 ≡ success
      → sent (write_frame send fd type reserved payload (length payload) s).1 fd
        ≡ sent s fd ++ frame type reserved payload
  unfolding write_frame
  write_frame-sent fd type reserved payload s h =
      elim (Option-cases (send fd (header type reserved (length payload)) s).0) [
        | inl e ↦ ground arith
        | inr (n, e) ↦
            let hd = header type reserved (length payload) in
            ground (
              arith,
              takes_all fd hd s n e,
              send_payload-sent fd payload (send fd hd s).1,
              append_assoc (sent s fd) hd payload,
            )
      ]

  -- A send that returns 0 has written exactly one frame.
  pub group_lmp_send-frame :
      (fd type : ℕ) (payload : List ℕ) (sender : ℕ) (s : S)
      → (group_lmp_send send fd type payload (length payload) sender s).0 ≡ success
      → sent (group_lmp_send send fd type payload (length payload) sender s).1 fd
        ≡ sent s fd ++ frame type (sender % 256) payload
  unfolding group_lmp_send
  group_lmp_send-frame fd type payload sender s = write_frame-sent fd type (sender % 256) payload s

  pub lmp_send-frame :
      (fd type : ℕ) (payload : List ℕ) (s : S)
      → (lmp_send send fd type payload (length payload) s).0 ≡ success
      → sent (lmp_send send fd type payload (length payload) s).1 fd
        ≡ sent s fd ++ frame type 0 payload
  unfolding lmp_send
  lmp_send-frame fd type payload s = write_frame-sent fd type 0 payload s
