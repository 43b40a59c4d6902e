-- ===== src/Net/Address.antt =====
-- The address of this host (comms.c), and the discovery of a group (group_server_comms.c,
-- group_user_comms.c).
use socket_speak.Base.{
  ℕ, ◌/◌, ◌%◌, ◌^◌, List, [], ◌∷◌, Bool, not, Option, none, some, ◌==◌, if◌then◌else◌, codes, cstr,
  str_eq,
}

-- One entry of getifaddrs: an IPv4 address in host order, or `none` for an entry without an address
-- or of another family.
abbrev pub Interface : Type 0
Interface = Option ℕ

-- (candidate_ip & 0xFF000000) == 0x7F000000, of a 32-bit address.
unfoldable pub is_loopback : ℕ → Bool
is_loopback ip = ip / 2 ^ 24 % 256 == 127

-- The address that `get_my_ip` returns; `none` is its exit.
first_address : List Interface → Option ℕ
first_address [] = none
first_address (none ∷ rest) = first_address rest
first_address (some ip ∷ rest) =
    let next = first_address rest in if not (is_loopback ip) then some ip else next

-- `none` says that getifaddrs failed.
unfoldable pub get_my_ip : Option (List Interface) → Option ℕ
unfolding first_address is_loopback
get_my_ip none = none
get_my_ip (some interfaces) = first_address interfaces

-- MAGIC_WORD and GROUP_DISCOVERY_MAGIC
abbrev pub magic_word : List ℕ
magic_word = codes "DISCOVER_SERVER_V1"

abbrev pub group_discovery_magic : ℕ
group_discovery_magic = 0x4744

-- The answer of `group_server_UDP_reply` to a datagram of at least one byte; `info` is the memory of
-- the GroupInfo.
unfoldable pub discovery_reply : List ℕ → List ℕ → Option (List ℕ)
discovery_reply info datagram =
    if str_eq (cstr datagram) magic_word
    then some ((group_discovery_magic / 2 ^ 8 % 256) ∷ (group_discovery_magic % 256) ∷ 0 ∷ info)
    else none
