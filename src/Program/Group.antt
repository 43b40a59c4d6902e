-- ===== src/Program/Group.antt =====
-- The receiver of a group client and the server: `receiver` of group_user_comms.c looks up the
-- sender's byte of a frame, in an array of ten.
use socket_speak.Base.{
  ℕ, zero, suc, subst, ◌<◌, ◌≡◌, refl, List, [], ◌∷◌, some, length, get_elem?, get_elem?-lt, All,
  arith,
}
use socket_speak.Process.{done}
use socket_speak.Server.State.{Server, GroupMember, Send, max_group_members}
use socket_speak.Server.Handler.Frames.{Env}
use socket_speak.Server.Handler.Dispatch.{handle_message}
use socket_speak.Server.Senders.{IsLow, Low, handle_message-Low}
use socket_speak.Program.World.{World}
use socket_speak.Program.Loop.{named, amend}

some_inj : {A : Type 0} (x y : A) → some x ≡ some y → x ≡ y
some_inj x y e = cc

All-get_elem? :
    {A : Type 0} (P : A → Type 0) (xs : List A) (k : ℕ) (x : A)
    → All P xs
    → get_elem? xs k ≡ some x
    → P x
All-get_elem? P [] k x h e = absurd (cc)
All-get_elem? P (y ∷ xs) zero x h e = subst P (some_inj y x e) h.0
All-get_elem? P (y ∷ xs) (suc k) x h e = All-get_elem? P xs k x h.1 e

amend_found :
    (sender : ℕ) (m : GroupMember) (w : World)
    → get_elem? w.client.user_group.members sender ≡ some m
    → amend sender w ≡ done (named m w)
unfolding amend
amend_found sender m w at = rw (at, amend) refl

-- If every frame that the server has sent carries a sender below ten, and a message of a client
-- whose index is below ten is handled, then for each frame that has been sent afterwards, a client
-- with a member array of ten entries finds an entry at the sender of the frame, and the two memcpy
-- of its receiver take the nickname and the uid of that entry.
pub amend-handle_message :
    (env : Env) (fd j type : ℕ) (buf : List ℕ) (len : ℕ) (s t : Server) (k : ℕ) (f : Send)
    (w : World)
    → Low s
    → j < max_group_members
    → handle_message env fd j type buf len s ≡ some t
    → get_elem? t.sends k ≡ some f
    → length w.client.user_group.members ≡ max_group_members
    → (m : GroupMember) × (get_elem? w.client.user_group.members f.sender ≡ some m)
      × (amend f.sender w ≡ done (named m w))
amend-handle_message env fd j type buf len s t k f w low small handled sent whole =
    let after = (handle_message-Low env s low fd j small type buf len).after t handled in
    let below : f.sender < max_group_members = All-get_elem? IsLow t.sends k f after.low sent in
    let (m, at) = get_elem?-lt w.client.user_group.members f.sender (omega arith) in
    (m, at, amend_found f.sender m w at)
