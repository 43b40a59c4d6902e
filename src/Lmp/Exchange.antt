-- ===== src/Lmp/Exchange.antt =====
-- From one end of a connection to the other: `group_lmp_send` on one side, `group_lmp_recv` on the
-- other, as the group server and its clients use them.
use socket_speak.Base.{
  ℕ, ◌+◌, ◌%◌, ◌^◌, ◌<◌, ◌≡◌, refl, sym, ap, ◌∙◌, List, ◌++◌, true, Option, length, drop,
  drop-append_exact, All, cstr, ◌≢◌, [], set,
}
use mathlib.Core.List.{append_assoc}
use socket_speak.Lmp.Socket.{Socket, IsStream}
use socket_speak.Lmp.Frame.{success, group_lmp_send, Message, message, fill, group_lmp_recv, header}
use socket_speak.Lmp.Recv.{parse_frame, group_lmp_recv-Agrees}
use socket_speak.Lmp.RoundTrip.{
  IsWire, IsWhole, frame, group_lmp_send-frame, parse_frame-frame, parse_frame_cut, cstr-fill,
}

append_cancel : (xs ys zs : List ℕ) → xs ++ ys ≡ xs ++ zs → ys ≡ zs
append_cancel xs ys zs e =
    sym (drop-append_exact xs ys) ∙ ap (drop (length xs)) e ∙ drop-append_exact xs zs

-- If the stream ends inside the payload of a frame, with at least one byte of it, group_lmp_recv
-- accepts the frame as if it were whole: it returns a message of the announced length, in whose
-- buffer the bytes that came are followed by what the buffer held before, up to the NUL at the
-- announced length, and nothing is left on the stream. The announced length is below 2^32 and the
-- buffer size, the stream has no error, and the fuel exceeds the buffer by more than 8 and the
-- interrupts.
pub group_lmp_recv_cut :
    {R : Type 0} (k : Socket R) (stream : IsStream k) (t : R) (fuel : ℕ) (buf part : List ℕ)
    (type reserved len : ℕ)
    → k.pending t ≡ header type reserved len ++ part
    → 0 < length part
    → length part < len
    → len < length buf
    → len < 2 ^ 32
    → k.healthy t ≡ true
    → length buf + 8 + k.interrupts t < fuel
    → let r = group_lmp_recv k fuel (length buf) buf t in
      (r.0
        ≡ message (record {
          type = type;
          sender = reserved;
          len = len;
          buf = set (part ++ drop (length part) buf) len 0;
        }))
      × (k.pending r.1 ≡ [])
unfolding fill
group_lmp_recv_cut k stream t fuel buf part type reserved len arrived some_ short fits word healthy
      enough =
    let (e, rest, _, _) = group_lmp_recv-Agrees k stream fuel buf (length buf) t healthy enough in
    let parsed =
      ap (parse_frame (length buf) buf) arrived
      ∙ parse_frame_cut (length buf) buf type reserved len part word fits some_ short in
    (e ∙ ap (λ p. p.0) parsed, rest ∙ ap (λ p. p.1) parsed)

module _ {S R : Type 0} (send : ℕ → List ℕ → S → Option ℕ × S) (sent : S → ℕ → List ℕ)
    (wire : IsWire send sent) (whole : IsWhole send) (k : Socket R) (stream : IsStream k) where
  -- A frame that group_lmp_send has written with success, to a connection whose receiver has read
  -- all that was written before, is received whole by group_lmp_recv, whatever is written behind
  -- it and however the stream is cut into reads: the receiver gets the type, the low byte of the
  -- sender, the length and the payload as the text in its buffer, and leaves what is behind the
  -- frame. Conditions: the payload has no NUL, is shorter than 2^32 bytes and than the buffer, no
  -- call of send takes less than all of its bytes, the stream has no error, and the fuel exceeds
  -- the buffer by more than 8 and the interrupts.
  pub group_lmp_recv-group_lmp_send :
      (fd type sender : ℕ) (payload more : List ℕ) (s : S) (t : R) (fuel : ℕ) (buf : List ℕ)
      → (group_lmp_send send fd type payload (length payload) sender s).0 ≡ success
      → sent (group_lmp_send send fd type payload (length payload) sender s).1 fd ++ more
        ≡ sent s fd ++ k.pending t
      → All (λ b. b ≢ 0) payload
      → length payload < 2 ^ 32
      → length payload < length buf
      → k.healthy t ≡ true
      → length buf + 8 + k.interrupts t < fuel
      → let r = group_lmp_recv k fuel (length buf) buf t in
        (m : Message) × (r.0 ≡ message m)
        × (m.type ≡ type)
        × (m.sender ≡ sender % 256)
        × (m.len ≡ length payload)
        × (cstr m.buf ≡ payload)
        × (k.pending r.1 ≡ more)
  group_lmp_recv-group_lmp_send fd type sender payload more s t fuel buf ok link clean word fits
        healthy enough =
      let written = group_lmp_send-frame send sent wire whole fd type payload sender s ok in
      let f = frame type (sender % 256) payload in
      let arrived : k.pending t ≡ f ++ more = sym (
        append_cancel (sent s fd) (f ++ more) (k.pending t)
          (sym (append_assoc (sent s fd) f more) ∙ ap (λ w. w ++ more) (sym written) ∙ link)) in
      let (e, rest, _, _) = group_lmp_recv-Agrees k stream fuel buf (length buf) t healthy enough in
      let parsed =
        ap (parse_frame (length buf) buf) arrived
        ∙ parse_frame-frame (length buf) buf type (sender % 256) payload more word fits in
      (
        record {
          type = type;
          sender = sender % 256;
          len = length payload;
          buf = fill buf payload (length payload);
        },
        e ∙ ap (λ p. p.0) parsed,
        refl,
        refl,
        refl,
        cstr-fill buf payload clean fits,
        rest ∙ ap (λ p. p.1) parsed,
      )
