-- ===== src/Hangman/Rules.antt =====
-- The rules of the game, independent of hangman.c, and the proof that a guess follows them.
-- `letters` are the letters guessed in this round, in any order and with repetitions.
use socket_speak.Base.{
  ℕ, ◌+◌, ◌≡◌, refl, ◌≢◌, List, [], ◌∷◌, ◌++◌, map, true, false, ◌&&◌, ◌||◌, not, arith, length,
  ◌==◌, if◌then◌else◌, contains, is_alpha,
}
use socket_speak.Hangman.Fsm.{Fsm, max_attempts, empty_character}
use socket_speak.Hangman.Guess.{scan_word, reveal}

-- The word as the players see it.
abbrev pub mask : List ℕ → List ℕ → List ℕ
mask word letters = map (λ c. if contains letters c then c else empty_character) word

-- No element occurs twice.
abbrev pub IsDistinct : List ℕ → Type 0
IsDistinct [] = Unit {0}
IsDistinct (x ∷ xs) = (contains xs x ≡ false) × IsDistinct xs

-- The record agrees with the rules once the players have guessed `letters`.
pub record Follows (letters : List ℕ) (f : Fsm) : Type 0 where
  pub shown : f.revealed_word ≡ mask f.hangman_word letters
  pub listed :
      (c : ℕ)
      → contains f.guessed_letters c ≡ (contains letters c && not (contains f.hangman_word c))
  pub once : IsDistinct f.guessed_letters
  pub paid : f.attempts_left + length f.guessed_letters ≡ max_attempts

pub alpha_ne_empty : (c : ℕ) → is_alpha c ≡ true → c ≢ empty_character
unfolding is_alpha
alpha_ne_empty c h = ground arith

pub scan_word-mask :
    (w letters : List ℕ) (c : ℕ)
    → c ≢ empty_character
    → scan_word w (mask w letters) c ≡ (contains w c, contains w c && contains letters c)
unfolding scan_word contains
scan_word-mask [] letters c h = refl
scan_word-mask (x ∷ w) letters c h = ground (arith, scan_word-mask w letters c h)

pub reveal-mask : (w letters : List ℕ) (c : ℕ) → reveal w (mask w letters) c ≡ mask w (c ∷ letters)
unfolding reveal contains
reveal-mask [] letters c = refl
reveal-mask (x ∷ w) letters c = ground (arith, reveal-mask w letters c)

-- A letter outside the word, or one that was guessed before, uncovers nothing.
pub mask_miss :
    (w letters : List ℕ) (c : ℕ) → contains w c ≡ false → mask w (c ∷ letters) ≡ mask w letters
unfolding contains
mask_miss [] letters c h = refl
mask_miss (x ∷ w) letters c h = ground (arith, mask_miss w letters c)

pub mask_again :
    (w letters : List ℕ) (c : ℕ) → contains letters c ≡ true → mask w (c ∷ letters) ≡ mask w letters
unfolding contains
mask_again [] letters c h = refl
mask_again (x ∷ w) letters c h = ground (arith, mask_again w letters c h)

pub contains-snoc :
    (xs : List ℕ) (x c : ℕ) → contains (xs ++ (x ∷ [])) c ≡ (contains xs c || x == c)
unfolding contains
contains-snoc [] x c = ground arith
contains-snoc (y ∷ xs) x c = ground (arith, contains-snoc xs x c)

pub IsDistinct-snoc :
    (xs : List ℕ) (c : ℕ) → IsDistinct xs → contains xs c ≡ false → IsDistinct (xs ++ (c ∷ []))
unfolding contains
IsDistinct-snoc [] c d h = (refl, tt)
IsDistinct-snoc (x ∷ xs) c d h =
    (ground (arith, contains-snoc xs c x), IsDistinct-snoc xs c d.1 (ground arith))
