-- ===== src/Server/Users.antt =====
-- The linked list of Hangman players (group_server_comms.c), as the list of the uids of its nodes.
use socket_speak.Base.{
  ℕ, ◌≡◌, refl, ◌≢◌, List, [], ◌∷◌, Bool, true, false, ◌||◌, arith, take, if◌then◌else◌, str_eq,
  str_eq_iff, str_eq_refl,
}

abbrev pub uid_length : ℕ
uid_length = 8

-- `allocated` says whether `malloc` succeeds. A node holds at most 8 bytes of the uid.
unfoldable pub add_user : Bool → List (List ℕ) → List ℕ → List (List ℕ)
add_user allocated users uid = if allocated then take uid_length uid ∷ users else users

-- Only the first node with the uid goes.
unfoldable pub remove_user : List (List ℕ) → List ℕ → List (List ℕ)
remove_user [] uid = []
remove_user (u ∷ users) uid = if str_eq u uid then users else u ∷ remove_user users uid

unfoldable pub free_users : List (List ℕ) → List (List ℕ)
free_users users = []

unfoldable pub user_in_list : List (List ℕ) → List ℕ → Bool
user_in_list [] uid = false
user_in_list (u ∷ users) uid = str_eq u uid || user_in_list users uid

-- A uid as the program makes them: 8 bytes.
abbrev pub IsUid : List ℕ → Type 0
IsUid uid = take uid_length uid ≡ uid

-- If malloc succeeds, a player with a uid of at most eight bytes who was added is in the list, and
-- every other answer of user_in_list is as before.
pub user_in_list-add_user :
    (users : List (List ℕ)) (uid other : List ℕ)
    → IsUid uid
    → user_in_list (add_user true users uid) other
      ≡ (if str_eq uid other then true else user_in_list users other)
unfolding add_user user_in_list
user_in_list-add_user users uid other h = rw h (ground arith)

-- Removing a player leaves the answer of user_in_list for every other uid as it was.
pub user_in_list-remove_user_other :
    (users : List (List ℕ)) (uid other : List ℕ)
    → uid ≢ other
    → user_in_list (remove_user users uid) other ≡ user_in_list users other
unfolding remove_user user_in_list
user_in_list-remove_user_other [] uid other h = refl
user_in_list-remove_user_other (u ∷ users) uid other h =
    ground (
      arith,
      user_in_list-remove_user_other users uid other h,
      str_eq_iff u uid,
      str_eq_iff u other,
    )

-- A player who is not listed twice is out after one removal.
pub user_in_list-remove_user :
    (users : List (List ℕ)) (uid : List ℕ)
    → user_in_list users uid ≡ false
    → IsUid uid
    → user_in_list (remove_user (add_user true users uid) uid) uid ≡ false
unfolding remove_user user_in_list add_user
user_in_list-remove_user users uid h e = rw (e, str_eq_refl uid) h

-- A player with a uid of at most eight bytes who is added while already in the list is still in
-- the list after one removal.
remove_user_twice :
    (users : List (List ℕ)) (uid : List ℕ)
    → IsUid uid
    → user_in_list users uid ≡ true
    → user_in_list (remove_user (add_user true users uid) uid) uid ≡ true
unfolding remove_user user_in_list add_user
remove_user_twice users uid e h = rw (e, str_eq_refl uid) h
