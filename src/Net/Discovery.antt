-- ===== src/Net/Discovery.antt =====
-- How a client finds a group: the request, the loop of the server that answers, and what the client
-- takes from an answer (group_user_comms.c, group_server_comms.c).
use socket_speak.Base.{
  ℕ, ◌+◌, ◌≡◌, refl, ◌∙◌, inl, inr, List, [], ◌∷◌, Bool, true, false, Option, none, some, ◌==◌,
  if◌then◌else◌, length, take, drop, take_all, All, cstr, str_eq, Bool-cases, arith,
}
use socket_speak.Net.Address.{magic_word, discovery_reply}
use socket_speak.Net.Programs.{group_server_udp_reply}

-- The end of `user_UDP_to_group_server`: recvfrom gives at most `size` bytes, and a reply of that
-- size is taken, whatever its magic bytes and its status. The three bytes of these stand first.
unfoldable pub reply_info : ℕ → Option (List ℕ) → Option (List ℕ)
reply_info size none = none
reply_info size (some datagram) =
    if length (take size datagram) == size then some (drop 3 (take size datagram)) else none

-- The datagrams that `group_server_UDP_reply` takes for requests.
abbrev pub is_request : List ℕ → Bool
is_request datagram = str_eq (cstr (take 1023 datagram)) magic_word

abbrev pub requests : List (List ℕ) → ℕ
requests [] = 0
requests (datagram ∷ rest) = (if is_request datagram then 1 else 0) + requests rest

-- What a client reads from an answer.
abbrev pub Informs : List ℕ → List ℕ → Type 0
Informs info answer = reply_info (length info + 3) (some answer) ≡ some info

abbrev answer_of : List ℕ → List ℕ
answer_of info = 0x47 ∷ 0x44 ∷ 0 ∷ info

answer_of-Informs : (info : List ℕ) → Informs info (answer_of info)
unfolding reply_info
answer_of-Informs info =
    let whole : take (length info + 3) (answer_of info) ≡ answer_of info =
      take_all (length info + 3) (answer_of info) (omega arith) in
    rw whole (ground arith)

-- Whatever datagrams the server receives, it sends as many answers as there are requests among
-- them, the datagrams whose first 1023 bytes read up to a NUL as the magic word, and from each
-- answer a client takes the information of the group as the server has it. The magic word itself,
-- which a client sends, is a request.
pub reply_info-group_server_udp_reply :
    (info : List ℕ) (datagrams : List (List ℕ))
    → All (Informs info) (group_server_udp_reply info datagrams)
      × (length (group_server_udp_reply info datagrams) ≡ requests datagrams)
      × (is_request magic_word ≡ true)
unfolding group_server_udp_reply discovery_reply str_eq cstr
reply_info-group_server_udp_reply info [] = (tt, refl, refl)
reply_info-group_server_udp_reply info ([] ∷ rest) =
    let (informs, counted, known) = reply_info-group_server_udp_reply info rest in
    (informs, counted ∙ omega arith, known)
reply_info-group_server_udp_reply info ((b ∷ bs) ∷ rest) =
    let (informs, counted, known) = reply_info-group_server_udp_reply info rest in
    let nonempty : length (b ∷ bs) == 0 ≡ false = ground arith in
    elim (Bool-cases (is_request (b ∷ bs))) [
      | inl asks ↦
          rw (nonempty, asks) ((answer_of-Informs info, informs), omega (arith, counted), known)
      | inr other ↦ rw (nonempty, other) (informs, omega (arith, counted), known)
    ]
