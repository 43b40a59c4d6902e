-- ===== src/Server/Clients.antt =====
-- The group as its clients see it: the set of the connections with their members. The server keeps
-- it in two arrays side by side, and closes gaps by moving the last entries down.
use mathlib.Core.List.{Perm, perm_append_singleton}
use mathlib.Core.List.Perm
use socket_speak.Base.{
  ℕ, zero, suc, ◌≤◌, ◌<◌, ◌≡◌, refl, sym, ap, subst, ◌∙◌, List, [], ◌∷◌, ◌++◌, none, some, arith,
  length, length-set, get_elem?, set, take, drop,
}
use socket_speak.Server.State.{Server, GroupMember}

module _ {A B : Type 0} where
  -- Two arrays side by side, as long as the shorter.
  abbrev pub zip : List A → List B → List (A × B)
  zip [] ys = []
  zip (x ∷ xs) [] = []
  zip (x ∷ xs) (y ∷ ys) = (x, y) ∷ zip xs ys

  pub zip-set :
      (xs : List A) (ys : List B) (i : ℕ) (a : A) (b : B)
      → zip (set xs i a) (set ys i b) ≡ set (zip xs ys) i (a, b)
  zip-set [] ys i a b = refl
  zip-set (x ∷ xs) [] zero a b = refl
  zip-set (x ∷ xs) [] (suc i) a b = refl
  zip-set (x ∷ xs) (y ∷ ys) zero a b = refl
  zip-set (x ∷ xs) (y ∷ ys) (suc i) a b = ap (λ r. (x, y) ∷ r) (zip-set xs ys i a b)

  pub zip-take : (n : ℕ) (xs : List A) (ys : List B) → zip (take n xs) ys ≡ take n (zip xs ys)
  zip-take zero xs ys = refl
  zip-take (suc n) [] ys = refl
  zip-take (suc n) (x ∷ xs) [] = refl
  zip-take (suc n) (x ∷ xs) (y ∷ ys) = ap (λ r. (x, y) ∷ r) (zip-take n xs ys)

  pub get_elem?-zip :
      (xs : List A) (ys : List B) (i : ℕ) (a : A) (b : B)
      → get_elem? xs i ≡ some a
      → get_elem? ys i ≡ some b
      → get_elem? (zip xs ys) i ≡ some (a, b)
  get_elem?-zip [] ys i a b ha hb = cc
  get_elem?-zip (x ∷ xs) [] i a b ha hb = cc
  get_elem?-zip (x ∷ xs) (y ∷ ys) zero a b ha hb = cc
  get_elem?-zip (x ∷ xs) (y ∷ ys) (suc i) a b ha hb = get_elem?-zip xs ys i a b ha hb

  pub zip-snoc :
      (xs : List A) (ys : List B) (a : A) (b : B)
      → length xs < length ys
      → zip (xs ++ (a ∷ [])) (set ys (length xs) b) ≡ zip xs ys ++ ((a, b) ∷ [])
  zip-snoc [] [] a b h = absurd (omega arith)
  zip-snoc [] (y ∷ ys) a b h = refl
  zip-snoc (x ∷ xs) [] a b h = absurd (omega arith)
  zip-snoc (x ∷ xs) (y ∷ ys) a b h = ap (λ r. (x, y) ∷ r) (zip-snoc xs ys a b (omega arith))

  pub length-zip :
      (xs : List A) (ys : List B) → length xs ≤ length ys → length (zip xs ys) ≡ length xs
  length-zip [] ys h = refl
  length-zip (x ∷ xs) [] h = absurd (omega arith)
  length-zip (x ∷ xs) (y ∷ ys) h = ap suc (length-zip xs ys (omega arith))

module _ {A : Type 0} where
  some_inj : (x y : A) → some x ≡ some y → x ≡ y
  some_inj x y e = cc

  none_ne_some : (x : A) → none ≡ some x → ⊥
  none_ne_some x e = cc

  -- Writing over an entry exchanges the two values.
  perm_set :
      (xs : List A) (i : ℕ) (x z : A) → get_elem? xs i ≡ some x → Perm (x ∷ set xs i z) (z ∷ xs)
  perm_set [] i x z e = elim (none_ne_some x e) [ ]
  perm_set (y ∷ ys) zero x z e =
      subst (λ w. Perm (w ∷ z ∷ ys) (z ∷ y ∷ ys)) (some_inj y x e) (Perm.swap z y ys)
  perm_set (y ∷ ys) (suc i) x z e =
      Perm.trans (Perm.swap y x (set ys i z))
        (Perm.trans (Perm.cons y (perm_set ys i x z e)) (Perm.swap z y ys))

  last_split :
      (xs : List A) (n : ℕ) (z : A)
      → length xs ≡ suc n
      → get_elem? xs n ≡ some z
      → take n xs ++ (z ∷ []) ≡ xs
  last_split [] n z len e = absurd (omega arith)
  last_split (x ∷ []) zero z len e = ap (λ w. w ∷ []) (sym (some_inj x z e))
  last_split (x ∷ y ∷ xs) zero z len e = absurd (omega arith)
  last_split (x ∷ xs) (suc n) z len e = ap (λ r. x ∷ r) (last_split xs n z (omega arith) e)

  get_elem?-set_same :
      (xs : List A) (i n : ℕ) (z : A) → get_elem? xs n ≡ some z → get_elem? (set xs i z) n ≡ some z
  get_elem?-set_same [] i n z e = e
  get_elem?-set_same (x ∷ xs) zero zero z e = refl
  get_elem?-set_same (x ∷ xs) zero (suc n) z e = e
  get_elem?-set_same (x ∷ xs) (suc i) zero z e = e
  get_elem?-set_same (x ∷ xs) (suc i) (suc n) z e = get_elem?-set_same xs i n z e

  -- The entry `i` goes, and the last one, `z`, takes its place.
  pub swap_remove-perm :
      (xs : List A) (i n : ℕ) (x z : A)
      → length xs ≡ suc n
      → get_elem? xs i ≡ some x
      → get_elem? xs n ≡ some z
      → Perm (x ∷ take n (set xs i z)) xs
  swap_remove-perm xs i n x z len ex ez =
      let l = set xs i z in
      let split : take n l ++ (z ∷ []) ≡ l =
        last_split l n z (length-set xs i z ∙ len) (get_elem?-set_same xs i n z ez) in
      let whole : Perm (x ∷ (take n l ++ (z ∷ []))) (z ∷ xs) =
        subst (λ w. Perm (x ∷ w) (z ∷ xs)) (sym split) (perm_set xs i x z ex) in
      Perm.cons_inv (Perm.trans (Perm.symm (perm_append_singleton z (x ∷ take n l))) whole)

-- The connections behind the listener, each with its member.
unfoldable pub clients : Server → List (ℕ × GroupMember)
clients s = zip (drop 1 s.pfds) s.group.members
