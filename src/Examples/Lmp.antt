-- ===== src/Examples/Lmp.antt =====
-- A frame that goes over a connection (lmp.c, group_server_comms.c, group_user_comms.c).
use socket_speak.Base.{
  ℕ, zero, suc, ◌%◌, ◌<◌, ◌≡◌, refl, sym, ap, set, take_all, List, [], ◌∷◌, ◌++◌, true, Option,
  some, arith, codes, cstr, length, ◌==◌, ==_refl, if◌then◌else◌, take, drop, replicate,
  take-append-drop, length-take,
}
use socket_speak.Lmp.Socket.{Socket, IsStream, got}
use socket_speak.Lmp.Frame.{
  header, htonl, write_frame, send_payload, group_lmp_send, group_lmp_recv, Message, message,
}
use socket_speak.Lmp.Recv.{parse_frame, Agrees, group_lmp_recv-Agrees}
use socket_speak.Lmp.RoundTrip.{IsWire, IsWhole}
use socket_speak.Lmp.Exchange.{group_lmp_recv_cut, group_lmp_recv-group_lmp_send}

-- A stream that holds bytes and gives as many as are asked for.
abbrev pipe : Socket (List ℕ)
pipe = record {
  read = λ n s. (got (take n s), drop n s);
  pending = λ s. s;
  interrupts = λ s. 0;
  healthy = λ s. true;
}

take_empty : (n : ℕ) (s : List ℕ) → 0 < n → take n s ≡ [] → s ≡ []
take_empty zero s h e = absurd (omega arith)
take_empty (suc n) [] h e = refl
take_empty (suc n) (b ∷ bs) h e = ground arith

pipe-IsStream : IsStream pipe
pipe-IsStream = record {
  delivers = λ n s h. (
    sym (take-append-drop n s),
    omega (arith, length-take n s),
    take_empty n s h,
    omega arith,
    refl,
  );
}

-- A network that keeps what was sent on each descriptor.
abbrev Net : Type 0
Net = ℕ → List ℕ

abbrev net_send : ℕ → List ℕ → Net → Option ℕ × Net
net_send fd bs net = (some (length bs), λ g. if g == fd then net g ++ bs else net g)

abbrev net_sent : Net → ℕ → List ℕ
net_sent net fd = net fd

net-IsWire : IsWire net_send net_sent
net-IsWire = record {
  takes = λ fd bs s n e. (omega (arith, e_size bs n e), rw (==_refl fd) (taken fd bs s n e));
}
  where
    e_size : (bs : List ℕ) (n : ℕ) → some (length bs) ≡ some n → length bs ≡ n
    e_size bs n e = cc

    taken :
        (fd : ℕ) (bs : List ℕ) (s : Net) (n : ℕ)
        → some (length bs) ≡ some n
        → s fd ++ bs ≡ s fd ++ take n bs
    taken fd bs s n e = ap (λ t. s fd ++ t) (sym (take_all n bs (omega (arith, e_size bs n e))))

net-IsWhole : IsWhole net_send
net-IsWhole fd bs s n e = cc

abbrev empty_net : Net
empty_net fd = []

-- A buffer of sixteen bytes.
abbrev buffer : List ℕ
buffer = replicate 16 0

group_lmp_recv-Agrees_example :
    Agrees pipe
      (header 0 2 2 ++ codes "hi!")
      (group_lmp_recv pipe 25 16 buffer (header 0 2 2 ++ codes "hi!"))
      (parse_frame 16 buffer (header 0 2 2 ++ codes "hi!"))
group_lmp_recv-Agrees_example =
    group_lmp_recv-Agrees pipe pipe-IsStream 25 buffer 16 (header 0 2 2 ++ codes "hi!") refl
      (omega arith)

group_lmp_recv-group_lmp_send_example :
    let r = group_lmp_recv pipe 25 16 buffer (header 0 3 2 ++ codes "hi!") in
    (m : Message) × (r.0 ≡ message m)
    × (m.type ≡ 0)
    × (m.sender ≡ 3 % 256)
    × (m.len ≡ 2)
    × (cstr m.buf ≡ codes "hi")
    × (r.1 ≡ codes "!")
unfolding group_lmp_send header write_frame send_payload htonl
group_lmp_recv-group_lmp_send_example =
    group_lmp_recv-group_lmp_send net_send net_sent net-IsWire net-IsWhole pipe pipe-IsStream 7 0 3
      (codes "hi") (codes "!") empty_net (header 0 3 2 ++ codes "hi!") 25 buffer refl refl
      (omega arith, (omega arith, tt)) (omega arith) (omega arith) refl (omega arith)

group_lmp_recv_cut_example :
    let r = group_lmp_recv pipe 25 16 buffer (header 0 3 5 ++ codes "hi") in
    (r.0
      ≡ message
          (record { type = 0; sender = 3; len = 5; buf = set (codes "hi" ++ drop 2 buffer) 5 0 }))
    × (r.1 ≡ [])
group_lmp_recv_cut_example =
    group_lmp_recv_cut pipe pipe-IsStream (header 0 3 5 ++ codes "hi") 25 buffer (codes "hi") 0 3 5
      refl (omega arith) (omega arith) (omega arith) (omega arith) refl (omega arith)
