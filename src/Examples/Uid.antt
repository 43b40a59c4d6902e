-- ===== src/Examples/Uid.antt =====
-- A start without uid.txt, and the next one (uid.c).
use socket_speak.Base.{ℕ, ◌≡◌, refl, List, true, none, some}
use socket_speak.Uid.{
  uid_string_valid, uid_int_to_hex, generate_uid, get_uid, stored_uid, get_uid-get_uid,
}

abbrev fresh_uid : List ℕ
fresh_uid = uid_int_to_hex (generate_uid 5)

get_uid-get_uid_example :
    (uid_string_valid fresh_uid ≡ true)
    × (get_uid (some fresh_uid) true 9 ≡ some (fresh_uid, some fresh_uid))
unfolding get_uid uid_string_valid stored_uid
get_uid-get_uid_example = get_uid-get_uid none true true 5 9 fresh_uid (some fresh_uid) refl
