-- ===== src/Client/Loading.antt =====
-- A load of the history, from the request to the frame that ends it.
use socket_speak.Base.{ℕ, ◌≡◌, sym, arith, ◌≢◌, ap, ◌∙◌, List, [], ◌∷◌, ◌++◌, map, true}
use mathlib.Core.List.{append-nil, append_assoc}
use socket_speak.Lmp.Code
use socket_speak.Client.Member.{
  Client, state_idle, state_requesting_load, state_loading, say, send_frame, loading_history,
  history_text, user_grp_load_msg_send, user_grp_load_msg_recv, user_grp_loading_msg_recv,
}

-- The messages of a load, one after the other.
unfoldable pub load_messages : List (List ℕ) → ℕ → Client → Client
load_messages [] len c = c
load_messages (buf ∷ bufs) len c =
    load_messages bufs len (user_grp_loading_msg_recv Code.grp_loading_msg buf len c).1

-- The texts of the messages.
abbrev pub history_texts : Client → List (List ℕ) → List (List ℕ)
history_texts c bufs = map (history_text c.user_member_info c.user_group) bufs

abbrev ended : Client → List ℕ → ℕ → Client
ended c buf len = (user_grp_load_msg_recv Code.grp_load_msg buf len c).1

ended_busy :
    (c : Client) (buf : List ℕ) (len : ℕ)
    → c.loading_message_state ≢ state_idle
    → ended c buf len ≡ record c { loading_message_state = state_idle }
unfolding user_grp_load_msg_recv
ended_busy c buf len busy = ground arith

message_busy :
    (c : Client) (buf : List ℕ) (len : ℕ)
    → c.loading_message_state ≢ state_idle
    → (user_grp_loading_msg_recv Code.grp_loading_msg buf len c).1 ≡ record c {
      loading_message_state = state_loading;
      prints = c.prints ++ (history_text c.user_member_info c.user_group buf ∷ []);
    }
unfolding user_grp_loading_msg_recv say
message_busy c buf len busy = ground arith

requesting_ne_idle : state_requesting_load ≢ state_idle
requesting_ne_idle = ground arith

loading_ne_idle : state_loading ≢ state_idle
loading_ne_idle = ground arith

load_messages-ended :
    (bufs : List (List ℕ)) (buf : List ℕ) (len : ℕ) (c : Client)
    → c.loading_message_state ≢ state_idle
    → ended (load_messages bufs len c) buf len
      ≡ record c { loading_message_state = state_idle; prints = c.prints ++ history_texts c bufs }
unfolding load_messages
load_messages-ended [] buf len c busy =
    ended_busy c buf len busy
    ∙ ap (λ p. record c { loading_message_state = state_idle; prints = p })
        (sym (append-nil c.prints))
load_messages-ended (b ∷ bufs) buf len c busy =
    let text = history_text c.user_member_info c.user_group b in
    let next : Client = record c {
      loading_message_state = state_loading;
      prints = c.prints ++ (text ∷ []);
    } in
    ap (λ d. ended (load_messages bufs len d) buf len) (message_busy c b len busy)
    ∙ load_messages-ended bufs buf len next loading_ne_idle
    ∙ ap (λ p. record c { loading_message_state = state_idle; prints = p })
        (append_assoc c.prints (text ∷ []) (history_texts c bufs))

-- From the idle state and with the connection up, a load of the history sends one request, prints
-- one text for each message that the server sends, in their order, and is idle again after the
-- frame that ends it; nothing else of the client changes.
pub load-session :
    (bufs : List (List ℕ)) (code : ℕ) (args buf : List ℕ) (len : ℕ) (c : Client)
    → c.loading_message_state ≡ state_idle
    → (user_grp_load_msg_recv Code.grp_load_msg buf len
        (load_messages bufs len (user_grp_load_msg_send true code args c).1)).1
      ≡ record c {
        prints = c.prints ++ (loading_history ∷ history_texts c bufs);
        sends = c.sends ++ ((Code.grp_load_msg, []) ∷ []);
      }
unfolding user_grp_load_msg_send say send_frame
load-session bufs code args buf len c idle =
    let asked : Client = record c {
      loading_message_state = state_requesting_load;
      prints = c.prints ++ (loading_history ∷ []);
      sends = c.sends ++ ((Code.grp_load_msg, []) ∷ []);
    } in
    let request : (user_grp_load_msg_send true code args c).1 ≡ asked = ground arith in
    ap (λ d. ended (load_messages bufs len d) buf len) request
    ∙ load_messages-ended bufs buf len asked requesting_ne_idle
    ∙ ap (λ p. record asked { loading_message_state = state_idle; prints = p })
        (append_assoc c.prints (loading_history ∷ []) (history_texts c bufs))
    ∙ ap
        (λ st. record c {
          loading_message_state = st;
          prints = c.prints ++ (loading_history ∷ history_texts c bufs);
          sends = c.sends ++ ((Code.grp_load_msg, []) ∷ []);
        })
        (sym idle)
