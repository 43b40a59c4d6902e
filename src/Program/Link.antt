-- ===== src/Program/Link.antt =====
-- Two users in a chat: each types messages and receives the frames of the other, in any order.
use mathlib.Core.List.{append-nil, append_assoc}
use socket_speak.Base.{
  ℕ, suc, ◌+◌, ◌≡◌, refl, sym, ap, subst, ◌∙◌, List, [], ◌∷◌, ◌++◌, map, true, false, some, length,
  length-append, get_elem?, All, All-append, IsString, arith,
}
use socket_speak.Process.{done}
use socket_speak.Lmp.Code
use socket_speak.Lmp.Lines.{IsPlain}
use socket_speak.Program.World.{Setting, World, chat_of}
use socket_speak.Program.Loop.{print_prompt, receive_message, chat_line}
use socket_speak.Program.Heard.{
  Turn, mine, theirs, mine-append, theirs-append, frame_of, Logs, chat_line-Logs,
  receive_message-Logs,
}

-- The two programs, and how many frames of the other each has read.
pub record Link : Type 0 where
  pub a : World
  pub b : World
  pub read_a : ℕ
  pub read_b : ℕ

-- What one side does: the loop takes a line, or the receiver takes the next frame of the other.
-- `behind` is what the buffer holds behind the payload and its NUL.
pub data Acts (g : Setting) (n : ℕ) (w other : World) (n' : ℕ) (w' : World) : Type 0 where
  says :
      (text : List ℕ)
      → IsPlain text
      → IsString text
      → chat_line g text (print_prompt w) ≡ done w'
      → n' ≡ n
      → Acts g n w other n' w'
  hears :
      (type : ℕ) (payload behind : List ℕ)
      → get_elem? (chat_of other).sends n ≡ some (type, payload)
      → receive_message g
          (record { type = type; sender = 0; len = length payload; buf = payload ++ (0 ∷ behind) })
          w
        ≡ done w'
      → n' ≡ suc n
      → Acts g n w other n' w'

pub data Step (g h : Setting) (l m : Link) : Type 0 where
  by_a : Acts g l.read_a l.a l.b m.read_a m.a → m.b ≡ l.b → m.read_b ≡ l.read_b → Step g h l m
  by_b : Acts h l.read_b l.b l.a m.read_b m.b → m.a ≡ l.a → m.read_a ≡ l.read_a → Step g h l m

pub data Reach (g h : Setting) (l : Link) : Link → Type 0 where
  here : Reach g h l l
  step : {m n : Link} → Reach g h l m → Step g h m n → Reach g h l n

-- The texts that the user of a side types, in their order.
abbrev pub typed_in :
    {g : Setting} {n n' : ℕ} {w other w' : World} → Acts g n w other n' w' → List (List ℕ)
typed_in (says text plain clean e same) = text ∷ []
typed_in (hears type payload behind at e same) = []

abbrev pub typed_a : {g h : Setting} {l m : Link} → Reach g h l m → List (List ℕ)
typed_a here = []
typed_a (step r (by_a acts same_b same_n)) = typed_a r ++ typed_in acts
typed_a (step r (by_b acts same_a same_n)) = typed_a r

abbrev pub typed_b : {g h : Setting} {l m : Link} → Reach g h l m → List (List ℕ)
typed_b here = []
typed_b (step r (by_a acts same_b same_n)) = typed_b r
typed_b (step r (by_b acts same_a same_n)) = typed_b r ++ typed_in acts

-- A user: the path of the history file, the names in it, and the frames sent before the chat.
pub record Party : Type 0 where
  pub first : ℕ
  pub rest : List ℕ
  pub me : List ℕ
  pub them : List ℕ
  pub before : List (ℕ × List ℕ)

-- The file holds the turns; what was heard is the first part of what the other said, and the rest
-- is unread.
pub record Side (p q : Party) (turns others : List Turn) (n : ℕ) (w : World) : Type 0 where
  pub logs : Logs (p.first ∷ p.rest) p.me p.them p.before turns w
  pub clean : All IsString (mine turns)
  pub unread : List (List ℕ)
  pub heard : mine others ≡ theirs turns ++ unread
  pub counted : n ≡ length q.before + length (theirs turns)

get_elem?-append :
    {A : Type 0} (xs ys : List A) (n : ℕ) → get_elem? (xs ++ ys) (length xs + n) ≡ get_elem? ys n
get_elem?-append [] ys n = let e : 0 + n ≡ n = omega arith in ap (get_elem? ys) e
get_elem?-append (x ∷ xs) ys n =
    let e : suc (length xs) + n ≡ suc (length xs + n) = omega arith in
    ap (get_elem? (x ∷ (xs ++ ys))) e ∙ get_elem?-append xs ys n

next_unread :
    (xs unread : List (List ℕ)) (y : ℕ × List ℕ)
    → get_elem? (map frame_of (xs ++ unread)) (length xs) ≡ some y
    → (text : List ℕ) × (rest : List (List ℕ)) × (unread ≡ text ∷ rest) × (frame_of text ≡ y)
next_unread [] [] y e = absurd (cc)
next_unread [] (text ∷ rest) y e = (text, rest, refl, cc)
next_unread (x ∷ xs) unread y e = next_unread xs unread y e

All-middle :
    {A : Type 0} (P : A → Type 0) (xs rest : List A) (x : A) → All P (xs ++ (x ∷ rest)) → P x
All-middle P [] rest x h = h.0
All-middle P (y ∷ xs) rest x h = All-middle P xs rest x h.1

done_inj : {A : Type 0} (x y : A) → done x ≡ done y → x ≡ y
done_inj x y e = cc

longer :
    {A : Type 0} (xs zs ys texts more : List A)
    → xs ≡ ys ++ texts
    → zs ≡ xs ++ more
    → zs ≡ ys ++ (texts ++ more)
longer xs zs ys texts more e f = f ∙ ap (λ t. t ++ more) e ∙ append_assoc ys texts more

module _ (g : Setting) (p q : Party) (opens : g.os.opens (p.first ∷ p.rest) ≡ true)
    (sends : g.os.sends ≡ true) (turns others : List Turn) (n k : ℕ) (w v : World)
    (this : Side p q turns others n w) (that : Side q p others turns k v) where
  -- What an act of one side leaves of both.
  abbrev Both : List (List ℕ) → ℕ → World → Type 0
  Both texts n' w' =
      (next : List Turn) × Side p q next others n' w'
      × Side q p others next k v
      × (mine next ≡ mine turns ++ texts)

  said :
      (text : List ℕ) (w' : World)
      → IsPlain text
      → IsString text
      → chat_line g text (print_prompt w) ≡ done w'
      → Both (text ∷ []) n w'
  said text w' plain clean e =
      let (u, done_u, logs) =
        chat_line-Logs g p.first p.rest p.me p.them p.before opens sends turns text w this.logs
          plain in
      let next = turns ++ ((true, text) ∷ []) in
      let same : theirs turns ≡ theirs next =
        sym (theirs-append turns ((true, text) ∷ []) ∙ append-nil (theirs turns)) in
      let more : mine next ≡ mine turns ++ (text ∷ []) = mine-append turns ((true, text) ∷ []) in
      (
        next,
        record {
          logs =
              subst (Logs (p.first ∷ p.rest) p.me p.them p.before next)
                (done_inj u w' (sym done_u ∙ e)) logs;
          clean =
              subst (All IsString) (sym more)
                (All-append IsString (mine turns) (text ∷ []) this.clean (clean, tt));
          unread = this.unread;
          heard = this.heard ∙ ap (λ t. t ++ this.unread) same;
          counted = this.counted ∙ ap (λ t. length q.before + length t) same;
        },
        record {
          logs = that.logs;
          clean = that.clean;
          unread = that.unread ++ (text ∷ []);
          heard =
              more
              ∙ ap (λ t. t ++ (text ∷ [])) that.heard
              ∙ append_assoc (theirs others) that.unread (text ∷ []);
          counted = that.counted;
        },
        more,
      )

  received :
      (type : ℕ) (payload behind : List ℕ) (w' : World)
      → get_elem? (chat_of v).sends n ≡ some (type, payload)
      → receive_message g
          (record { type = type; sender = 0; len = length payload; buf = payload ++ (0 ∷ behind) })
          w
        ≡ done w'
      → Both [] (suc n) w'
  received type payload behind w' at e =
      let sent : (chat_of v).sends ≡ q.before ++ map frame_of (theirs turns ++ this.unread) =
        that.logs.sent ∙ ap (λ t. q.before ++ map frame_of t) this.heard in
      let found : get_elem? (map frame_of (theirs turns ++ this.unread)) (length (theirs turns))
          ≡ some (type, payload) =
        sym (
          get_elem?-append q.before (map frame_of (theirs turns ++ this.unread))
            (length (theirs turns)))
        ∙ ap (λ t. get_elem? t (length q.before + length (theirs turns))) (sym sent)
        ∙ ap (get_elem? (chat_of v).sends) (sym this.counted)
        ∙ at in
      let (text, rest, split, same) =
        next_unread (theirs turns) this.unread (type, payload) found in
      let is_msg : Code.msg ≡ type = ap (λ f. f.0) same in
      let is_text : text ≡ payload = ap (λ f. f.1) same in
      let others_split : mine others ≡ theirs turns ++ (text ∷ rest) =
        this.heard ∙ ap (λ t. theirs turns ++ t) split in
      let clean : IsString payload = subst IsString is_text (
        All-middle IsString (theirs turns) rest text
          (subst (All IsString) others_split that.clean)) in
      let (u, done_u, logs) =
        receive_message-Logs g p.first p.rest p.me p.them p.before opens sends turns payload behind
          (length payload) 0 w this.logs clean in
      let e' =
        ap
          (λ t.
            receive_message g
              (record { type = t; sender = 0; len = length payload; buf = payload ++ (0 ∷ behind) })
              w)
          is_msg
        ∙ e in
      let next = turns ++ ((false, payload) ∷ []) in
      let same_mine : mine turns ≡ mine next =
        sym (mine-append turns ((false, payload) ∷ []) ∙ append-nil (mine turns)) in
      let more : theirs next ≡ theirs turns ++ (payload ∷ []) =
        theirs-append turns ((false, payload) ∷ []) in
      (
        next,
        record {
          logs =
              subst (Logs (p.first ∷ p.rest) p.me p.them p.before next)
                (done_inj u w' (sym done_u ∙ e')) logs;
          clean = subst (All IsString) same_mine this.clean;
          unread = rest;
          heard =
              others_split
              ∙ ap (λ t. theirs turns ++ (t ∷ rest)) is_text
              ∙ sym (append_assoc (theirs turns) (payload ∷ []) rest)
              ∙ ap (λ t. t ++ rest) (sym more);
          counted =
              omega
                (arith, this.counted, ap length more, length-append (theirs turns) (payload ∷ []));
        },
        record {
          logs = that.logs;
          clean = that.clean;
          unread = that.unread;
          heard = sym same_mine ∙ that.heard;
          counted = that.counted;
        },
        sym same_mine ∙ sym (append-nil (mine turns)),
      )

  Acts-Side : (n' : ℕ) (w' : World) (acts : Acts g n w v n' w') → Both (typed_in acts) n' w'
  Acts-Side n' w' (says text plain clean e same) =
      subst (λ t. Both (text ∷ []) t w') (sym same) (said text w' plain clean e)
  Acts-Side n' w' (hears type payload behind at e same) =
      subst (λ t. Both [] t w') (sym same) (received type payload behind w' at e)

-- Both sides at once.
pub record Agree (p q : Party) (turns_a turns_b : List Turn) (l : Link) : Type 0 where
  pub side_a : Side p q turns_a turns_b l.read_a l.a
  pub side_b : Side q p turns_b turns_a l.read_b l.b

-- The turns after a run: each user has said, behind what it had, what was typed.
pub record Talked (p q : Party) (turns_a turns_b : List Turn) (texts_a texts_b : List (List ℕ))
    (l : Link) : Type 0 where
  pub later_a : List Turn
  pub later_b : List Turn
  pub agree : Agree p q later_a later_b l
  pub said_a : mine later_a ≡ mine turns_a ++ texts_a
  pub said_b : mine later_b ≡ mine turns_b ++ texts_b

module _ (g h : Setting) (p q : Party) (opens_a : g.os.opens (p.first ∷ p.rest) ≡ true)
    (sends_a : g.os.sends ≡ true) (opens_b : h.os.opens (q.first ∷ q.rest) ≡ true)
    (sends_b : h.os.sends ≡ true) (turns_a turns_b : List Turn) where
  -- Two users run chat_loop and its receiver on one connection, and their files and connection
  -- work. The user on one side types lines without a slash at the start or a NUL, or the receiver
  -- takes the next frame of the other side, in any order and any interleaving of the two sides. If
  -- at some point the history files hold the turns of the talk, what each heard is the first part
  -- of what the other said, and each has read one frame for each turn heard, then after every such
  -- sequence of steps this holds again for longer turns: what each user has said is what it had
  -- said before and then exactly the texts typed on its side, in their order. So each of the two
  -- history files holds the turns of its user, each behind the name of its speaker, and what was
  -- typed but not yet heard is the rest.
  pub Reach-Agree :
      {l m : Link} (r : Reach g h l m)
      → Agree p q turns_a turns_b l
      → Talked p q turns_a turns_b (typed_a r) (typed_b r) m
  Reach-Agree here k = record {
    later_a = turns_a;
    later_b = turns_b;
    agree = k;
    said_a = sym (append-nil (mine turns_a));
    said_b = sym (append-nil (mine turns_b));
  }
  Reach-Agree {l} {m} (step {m = n} r (by_a acts same_b same_n)) k =
      let t = Reach-Agree r k in
      let (next, side, other, more) =
        Acts-Side g p q opens_a sends_a t.later_a t.later_b n.read_a n.read_b n.a n.b t.agree.side_a
          t.agree.side_b m.read_a m.a acts in
      record {
        later_a = next;
        later_b = t.later_b;
        agree = record {
          side_a = side;
          side_b =
              subst (λ c. Side q p t.later_b next c m.b) (sym same_n)
                (subst (λ w. Side q p t.later_b next n.read_b w) (sym same_b) other);
        };
        said_a =
            longer (mine t.later_a) (mine next) (mine turns_a) (typed_a r) (typed_in acts) t.said_a
              more;
        said_b = t.said_b;
      }
  Reach-Agree {l} {m} (step {m = n} r (by_b acts same_a same_n)) k =
      let t = Reach-Agree r k in
      let (next, side, other, more) =
        Acts-Side h q p opens_b sends_b t.later_b t.later_a n.read_b n.read_a n.b n.a t.agree.side_b
          t.agree.side_a m.read_b m.b acts in
      record {
        later_a = t.later_a;
        later_b = next;
        agree = record {
          side_a =
              subst (λ c. Side p q t.later_a next c m.a) (sym same_n)
                (subst (λ w. Side p q t.later_a next n.read_a w) (sym same_a) other);
          side_b = side;
        };
        said_a = t.said_a;
        said_b =
            longer (mine t.later_b) (mine next) (mine turns_b) (typed_b r) (typed_in acts) t.said_b
              more;
      }
