-- ===== src/Lmp/Frame.antt =====
-- The LMP frame (lmp.h) and the functions that write and read it: `lmp_send` and `lmp_recv` (lmp.c),
-- `group_lmp_send` (group_server_comms.c) and `group_lmp_recv` (group_user_comms.c).
use socket_speak.Base.{
  ℕ, ◌+◌, ◌*◌, ◌/◌, ◌%◌, List, [], ◌∷◌, ◌++◌, ◌&&◌, Option, none, some, ltb, leb, ◌==◌,
  if◌then◌else◌, length, take, drop, set,
}
use socket_speak.Lmp.Socket.{Socket}
use socket_speak.Lmp.ReadAll.{Filled, bytes, error, blocked, read_all}

abbrev pub lmp_magic_0 : ℕ
lmp_magic_0 = 0x4C

abbrev pub lmp_magic_1 : ℕ
lmp_magic_1 = 0x4D

-- The memory of `htonl(n)`, and `ntohl` of it.
unfoldable pub htonl : ℕ → List ℕ
htonl n = (n / 16777216 % 256) ∷ (n / 65536 % 256) ∷ (n / 256 % 256) ∷ (n % 256) ∷ []

unfoldable pub ntohl : ℕ → ℕ → ℕ → ℕ → ℕ
ntohl a b c d = ((a * 256 + b) * 256 + c) * 256 + d

-- lmp_header_t, as its 8 bytes.
unfoldable pub header : ℕ → ℕ → ℕ → List ℕ
header type reserved len = lmp_magic_0 ∷ lmp_magic_1 ∷ type ∷ reserved ∷ htonl len

-- 0 and -1
pub data Status : Type 0 where
  success failure : Status

module _ {S : Type 0} (send : ℕ → List ℕ → S → Option ℕ × S) where
  -- The second `send` of a frame, which an empty payload skips.
  unfoldable pub send_payload : ℕ → List ℕ → ℕ → S → Status × S
  send_payload fd payload len s =
      let (r, t) = send fd (take len payload) s in
      if ltb 0 len then elim r [ none ↦ (failure, t) | some _ ↦ (success, t) ] else (success, s)

  unfoldable pub write_frame : ℕ → ℕ → ℕ → List ℕ → ℕ → S → Status × S
  write_frame fd type reserved payload len s =
      let (r, t) = send fd (header type reserved len) s in
      elim r [ none ↦ (failure, t) | some _ ↦ send_payload fd payload len t ]

  unfoldable pub lmp_send : ℕ → ℕ → List ℕ → ℕ → S → Status × S
  lmp_send fd type payload len s = write_frame fd type 0 payload len s

  unfoldable pub group_lmp_send : ℕ → ℕ → List ℕ → ℕ → ℕ → S → Status × S
  group_lmp_send fd type payload len sender s = write_frame fd type (sender % 256) payload len s

pub record Header : Type 0 where
  pub type : ℕ
  pub reserved : ℕ
  pub payload_len : ℕ

-- A whole header with the magic bytes. A short one is refused whatever its missing bytes are.
unfoldable pub parse_header : List ℕ → Option Header
unfolding ntohl
parse_header (m ∷ n ∷ t ∷ r ∷ a ∷ b ∷ c ∷ d ∷ []) =
    if m == lmp_magic_0 && n == lmp_magic_1
    then some (record { type = t; reserved = r; payload_len = ntohl a b c d })
    else none
parse_header _ = none

-- The codes -1 to -5.
pub data RecvError : Type 0 where
  read_failed closed bad_header too_long bad_payload : RecvError

-- type_out, sender_out, len_out and the buffer.
pub record Message : Type 0 where
  pub type : ℕ
  pub sender : ℕ
  pub len : ℕ
  pub buf : List ℕ

-- `stuck` is no C value: `read_all` ran out of fuel.
pub data Received : Type 0 where
  message : Message → Received
  refused : RecvError → Received
  stuck : Received

-- The buffer after `received` was stored at its start and the NUL at `len`. What lies between the
-- two is what the buffer held before.
unfoldable pub fill : List ℕ → List ℕ → ℕ → List ℕ
fill buf received len = set (received ++ drop (length received) buf) len 0

abbrev pub deliver : Header → List ℕ → List ℕ → Received
deliver h buf received = message (record {
  type = h.type;
  sender = h.reserved;
  len = h.payload_len;
  buf = fill buf received h.payload_len;
})

-- The test `read_all(fd, buf, plen) <= 0`.
unfoldable pub finish_payload : Header → List ℕ → Filled → Received
finish_payload h buf (bytes []) = refused bad_payload
finish_payload h buf (bytes (b ∷ bs)) = deliver h buf (b ∷ bs)
finish_payload h buf error = refused bad_payload
finish_payload h buf blocked = stuck

module _ {S : Type 0} (k : Socket S) where
  unfoldable pub read_payload : ℕ → Header → List ℕ → S → Received × S
  read_payload fuel h buf s =
      let (r, t) = read_all k fuel h.payload_len s in
      if ltb 0 h.payload_len then (finish_payload h buf r, t) else (deliver h buf [], s)

  unfoldable pub after_header : ℕ → ℕ → List ℕ → Option Header → S → Received × S
  after_header fuel bufsize buf none s = (refused bad_header, s)
  after_header fuel bufsize buf (some h) s =
      if leb bufsize h.payload_len then (refused too_long, s) else read_payload fuel h buf s

  unfoldable pub check_header : ℕ → ℕ → List ℕ → Filled → S → Received × S
  check_header fuel bufsize buf error s = (refused read_failed, s)
  check_header fuel bufsize buf blocked s = (stuck, s)
  check_header fuel bufsize buf (bytes []) s = (refused closed, s)
  check_header fuel bufsize buf (bytes (b ∷ bs)) s =
      after_header fuel bufsize buf (parse_header (b ∷ bs)) s

  -- `buf` is what the buffer of `bufsize` bytes holds before the call.
  unfoldable pub group_lmp_recv : ℕ → ℕ → List ℕ → S → Received × S
  group_lmp_recv fuel bufsize buf s =
      let (r, t) = read_all k fuel 8 s in check_header fuel bufsize buf r t

-- `lmp_recv` is the same code without `sender_out`.
abbrev drop_sender : Received → Received
drop_sender (message m) = message (record m { sender = 0 })
drop_sender r = r

module _ {S : Type 0} (k : Socket S) where
  unfoldable pub lmp_recv : ℕ → ℕ → List ℕ → S → Received × S
  lmp_recv fuel bufsize buf s =
      let (r, t) = group_lmp_recv k fuel bufsize buf s in (drop_sender r, t)
