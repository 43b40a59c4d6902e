-- ===== src/Hangman/Refines.antt =====
-- `update_hangman` follows the rules of Hangman/Rules: what a guess does to the record, and what
-- the reply says.
use socket_speak.Base.{
  ℕ, ◌-◌, ◌<◌, ◌≡◌, refl, sym, ◌∙◌, ap, ◌⊎◌, inl, inr, List, [], ◌∷◌, ◌++◌, true, false, ◌&&◌, not,
  arith, length, length-append, replicate, if◌then◌else◌, contains, is_alpha, to_lower, Bool-cases,
}
use socket_speak.Hangman.Fsm.{Fsm, empty_character}
use socket_speak.Hangman.Guess.{begin_round, scan_word, record_miss, apply_guess}
use socket_speak.Hangman.Process.{play_guess}
use socket_speak.Hangman.Rules.{
  mask, Follows, alpha_ne_empty, scan_word-mask, reveal-mask, mask_miss, mask_again, contains-snoc,
  IsDistinct-snoc,
}

-- The letters after an input: only a letter counts as a guess.
abbrev pub guessed : List ℕ → ℕ → List ℕ
guessed letters c = if is_alpha c then c ∷ letters else letters

-- A new letter outside the word.
abbrev miss : Fsm → ℕ → Fsm
miss f c = record f {
  guessed_letters = f.guessed_letters ++ (c ∷ []);
  attempts_left = f.attempts_left - 1;
}

module _ (letters : List ℕ) (f : Fsm) (c : ℕ) (follows : Follows letters f) where
  record_miss-fsm :
      0 < f.attempts_left
      → (record_miss f c).fsm ≡ (if contains f.guessed_letters c then f else miss f c)
  unfolding record_miss
  record_miss-fsm h = ground (arith, follows.paid)

  -- The letters that are added to the list of wrong guesses.
  listed_again :
      contains f.guessed_letters c ≡ true
      → (d : ℕ)
      → contains f.guessed_letters d ≡ (contains (c ∷ letters) d && not (contains f.hangman_word d))
  unfolding contains
  listed_again old d = ground (arith, follows.listed c, follows.listed d)

  listed_anew :
      contains f.hangman_word c ≡ false
      → (d : ℕ)
      → contains (f.guessed_letters ++ (c ∷ [])) d
        ≡ (contains (c ∷ letters) d && not (contains f.hangman_word d))
  unfolding contains
  listed_anew h d = ground (arith, contains-snoc f.guessed_letters c d, follows.listed d)

  listed_hit :
      contains f.hangman_word c ≡ true
      → (d : ℕ)
      → contains f.guessed_letters d ≡ (contains (c ∷ letters) d && not (contains f.hangman_word d))
  unfolding contains
  listed_hit h d = ground (arith, follows.listed d)

  record_miss-Follows :
      0 < f.attempts_left
      → contains f.hangman_word c ≡ false
      → Follows (c ∷ letters) (record_miss f c).fsm
  record_miss-Follows h absent = elim (Bool-cases (contains f.guessed_letters c)) [
    | inl old ↦
        rw (record_miss-fsm h, old)
          (record {
            shown = follows.shown ∙ sym (mask_miss f.hangman_word letters c absent);
            listed = listed_again old;
            once = follows.once;
            paid = follows.paid;
          })
    | inr new ↦
        rw (record_miss-fsm h, new)
          (record {
            shown = follows.shown ∙ sym (mask_miss f.hangman_word letters c absent);
            listed = listed_anew absent;
            once = IsDistinct-snoc f.guessed_letters c follows.once new;
            paid = omega (arith, follows.paid, length-append f.guessed_letters (c ∷ []));
          })
  ]

  -- What the scan finds: the letter is in the word; it was guessed before.
  scan_word-Follows :
      is_alpha c ≡ true
      → scan_word f.hangman_word f.revealed_word c
        ≡ (contains f.hangman_word c, contains f.hangman_word c && contains letters c)
  scan_word-Follows a =
      rw follows.shown (scan_word-mask f.hangman_word letters c (alpha_ne_empty c a))

  -- The three ways of `apply_guess` at a letter.
  apply_guess-cases :
      is_alpha c ≡ true
      → apply_guess f c ≡ (
          if not (contains f.hangman_word c)
          then record_miss f c
          else if contains letters c
          then record { fsm = f; found_letter = true; already_guessed = true }
          else record {
            fsm = record f { revealed_word = mask f.hangman_word (c ∷ letters) };
            found_letter = true;
            already_guessed = false;
          })
  unfolding apply_guess
  apply_guess-cases a =
      ground (arith, scan_word-Follows a, follows.shown, reveal-mask f.hangman_word letters c)

  letter-Follows :
      is_alpha c ≡ true → 0 < f.attempts_left → Follows (c ∷ letters) (apply_guess f c).fsm
  letter-Follows a h = elim (Bool-cases (contains f.hangman_word c)) [
    | inr absent ↦ rw (apply_guess-cases a, absent) (record_miss-Follows h absent)
    | inl present ↦ elim (Bool-cases (contains letters c)) [
      | inl old ↦
          rw (apply_guess-cases a, present, old)
            (record {
              shown = follows.shown ∙ sym (mask_again f.hangman_word letters c old);
              listed = listed_hit present;
              once = follows.once;
              paid = follows.paid;
            })
      | inr new ↦
          rw (apply_guess-cases a, present, new)
            (record {
              shown = refl;
              listed = listed_hit present;
              once = follows.once;
              paid = follows.paid;
            })
    ]
  ]

  apply_guess_other :
      is_alpha c ≡ false
      → apply_guess f c ≡ record { fsm = f; found_letter = false; already_guessed = false }
  unfolding apply_guess
  apply_guess_other other = rw other

  -- A guess adds its letter to the letters guessed; any other input leaves the record alone.
  pub apply_guess-Follows : 0 < f.attempts_left → Follows (guessed letters c) (apply_guess f c).fsm
  apply_guess-Follows h = elim (Bool-cases (is_alpha c)) [
    | inl a ↦ rw a (letter-Follows a h)
    | inr other ↦ rw (other, apply_guess_other other) follows
  ]

-- Nobody has guessed yet, or the round goes on.
abbrev pub Ready : List ℕ → Fsm → Type 0
Ready letters f =
    ((f.hangman_round_initialized ≡ false) × (letters ≡ []))
    ⊎ ((f.hangman_round_initialized ≡ true) × Follows letters f × (0 < f.attempts_left))

mask_none : (w : List ℕ) → replicate (length w) empty_character ≡ mask w []
unfolding contains
mask_none [] = refl
mask_none (x ∷ w) = ap (λ r. empty_character ∷ r) (mask_none w)

begin_round-Follows :
    (letters : List ℕ) (f : Fsm)
    → Ready letters f
    → Follows letters (begin_round f) × (0 < (begin_round f).attempts_left)
unfolding begin_round contains
begin_round-Follows letters f (inl (fresh, e)) =
    rw (fresh, e)
      (
        record { shown = mask_none f.hangman_word; listed = λ c. refl; once = tt; paid = refl },
        omega arith,
      )
begin_round-Follows letters f (inr (begun, follows, alive)) = simp begun (follows, alive)

begin_round-word : (f : Fsm) → (begin_round f).hangman_word ≡ f.hangman_word
unfolding begin_round
begin_round-word f = ground arith

apply_guess-word : (f : Fsm) (c : ℕ) → (apply_guess f c).fsm.hangman_word ≡ f.hangman_word
unfolding apply_guess record_miss
apply_guess-word f c = ground arith

pub play_guess-word : (f : Fsm) (input : ℕ) → (play_guess f input).fsm.hangman_word ≡ f.hangman_word
unfolding play_guess
play_guess-word f input = apply_guess-word (begin_round f) (to_lower input) ∙ begin_round-word f

pub play_guess-Follows :
    (letters : List ℕ) (f : Fsm) (input : ℕ)
    → Ready letters f
    → Follows (guessed letters (to_lower input)) (play_guess f input).fsm
unfolding play_guess
play_guess-Follows letters f input ready =
    let (follows, alive) = begin_round-Follows letters f ready in
    apply_guess-Follows letters (begin_round f) (to_lower input) follows alive

-- The two flags of a guess, told by the rules: the letter was guessed before; it is in the word.
pub apply_guess-flags :
    (letters : List ℕ) (f : Fsm) (c : ℕ)
    → Follows letters f
    → is_alpha c ≡ true
    → ((apply_guess f c).already_guessed ≡ contains letters c)
      × ((apply_guess f c).found_letter ≡ contains f.hangman_word c)
unfolding record_miss
apply_guess-flags letters f c follows a =
    rw (apply_guess-cases letters f c follows a) (ground (arith, follows.listed c))

pub play_guess-flags :
    (letters : List ℕ) (f : Fsm) (input : ℕ)
    → Ready letters f
    → is_alpha (to_lower input) ≡ true
    → ((play_guess f input).already_guessed ≡ contains letters (to_lower input))
      × ((play_guess f input).found_letter ≡ contains f.hangman_word (to_lower input))
unfolding play_guess
play_guess-flags letters f input ready a =
    let (already, found) =
      apply_guess-flags letters (begin_round f) (to_lower input)
        (begin_round-Follows letters f ready).0 a in
    (already, found ∙ ap (λ w. contains w (to_lower input)) (begin_round-word f))
