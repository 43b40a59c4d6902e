-- ===== src/Hangman/Choice.antt =====
-- What `set_random_word` chooses, and that a game that starts from a good word file ends.
use socket_speak.Base.{
  ℕ, ◌+◌, ◌%◌, ◌≡◌, refl, sym, subst, ◌∙◌, ◌≢◌, ◌⊎◌, inl, inr, List, [], ◌∷◌, ◌++◌, map, true,
  false, some, arith, All, ◌==◌, contains, to_lower, Bool-cases, Option-cases, is_lower,
  fgets_lines,
}
use mathlib.Core.List.{Memᴰ, append-nil}
use socket_speak.Hangman.Fsm.{initial, playing, Fsm}
use socket_speak.Hangman.Words.{Draw, word_of_line, is_eligible, choose_word, set_random_word}
use socket_speak.Hangman.Process.{process_hangman_state}
use socket_speak.Hangman.Verdicts.{IsWord, solved}
use socket_speak.Hangman.Rounds.{play_round, play_round-ends}

-- The word is an eligible line of the file.
abbrev pub IsFrom : List (List ℕ) → List ℕ → Type 0
IsFrom lines word =
    (line : List ℕ) × Memᴰ line lines
    × (is_eligible (word_of_line line) ≡ true)
    × (word ≡ word_of_line line)

abbrev pub NoneEligible : List (List ℕ) → Type 0
NoneEligible = All (λ line. is_eligible (word_of_line line) ≡ false)

IsFrom-there :
    (line word : List ℕ) (lines : List (List ℕ)) → IsFrom lines word → IsFrom (line ∷ lines) word
IsFrom-there line word lines (l, m, e, w) = (l, Memᴰ.tail m, e, w)

first_taken : (r count : ℕ) → count ≡ 0 → (r % (count + 1) == 0) ≡ false → ⊥
first_taken r count z h = ground arith

module _ (rand : ℕ → ℕ) (count : ℕ) (line : List ℕ) (lines : List (List ℕ)) (chosen : List ℕ) where
  step_long :
      is_eligible (word_of_line line) ≡ false
      → choose_word rand count (line ∷ lines) chosen ≡ choose_word rand count lines chosen
  unfolding choose_word
  step_long long = rw long

  step_taken :
      is_eligible (word_of_line line) ≡ true
      → (rand count % (count + 1) == 0) ≡ true
      → choose_word rand count (line ∷ lines) chosen
        ≡ choose_word rand (count + 1) lines (word_of_line line)
  unfolding choose_word
  step_taken fits hit = rw (fits, hit)

  step_passed :
      is_eligible (word_of_line line) ≡ true
      → (rand count % (count + 1) == 0) ≡ false
      → choose_word rand count (line ∷ lines) chosen ≡ choose_word rand (count + 1) lines chosen
  unfolding choose_word
  step_passed fits pass = rw (fits, pass)

-- The loop either takes an eligible line or keeps its candidate; it takes the first eligible line.
abbrev Chooses : ℕ → List (List ℕ) → List ℕ → List ℕ → Type 0
Chooses count lines chosen r = IsFrom lines r ⊎ ((r ≡ chosen) × (count ≡ 0 → NoneEligible lines))

choose_word-Chooses :
    (rand : ℕ → ℕ) (count : ℕ) (lines : List (List ℕ)) (chosen : List ℕ)
    → Chooses count lines chosen (choose_word rand count lines chosen)
choose_word-Chooses rand count [] chosen = inr (unfold choose_word in refl, λ _. tt)
choose_word-Chooses rand count (line ∷ lines) chosen = elim (Bool-cases (is_eligible word)) [
  | inr long ↦
      subst goal (sym (step_long rand count line lines chosen long))
        (later long (choose_word-Chooses rand count lines chosen))
  | inl fits ↦ elim (Bool-cases (rand count % (count + 1) == 0)) [
    | inl hit ↦
        subst goal (sym (step_taken rand count line lines chosen fits hit))
          (taken fits (choose_word-Chooses rand (count + 1) lines word))
    | inr pass ↦
        subst goal (sym (step_passed rand count line lines chosen fits pass))
          (passed pass (choose_word-Chooses rand (count + 1) lines chosen))
  ]
]
  where
    word : List ℕ
    word = word_of_line line

    goal : List ℕ → Type 0
    goal = Chooses count (line ∷ lines) chosen

    later : is_eligible word ≡ false → {r : List ℕ} → Chooses count lines chosen r → goal r
    later long {r} (inl from) = inl (IsFrom-there line r lines from)
    later long (inr (e, rest)) = inr (e, λ z. (long, rest z))

    taken : is_eligible word ≡ true → {r : List ℕ} → Chooses (count + 1) lines word r → goal r
    taken fits {r} (inl from) = inl (IsFrom-there line r lines from)
    taken fits (inr (e, _)) = inl (line, Memᴰ.head refl, fits, e)

    passed :
        (rand count % (count + 1) == 0) ≡ false
        → {r : List ℕ} → Chooses (count + 1) lines chosen r
        → goal r
    passed pass {r} (inl from) = inl (IsFrom-there line r lines from)
    passed pass (inr (e, _)) = inr (e, λ z. absurd (first_taken (rand count) count z pass))

-- The word comes from the file.
abbrev pub IsDrawn : Draw → List ℕ → Type 0
IsDrawn d word = (bytes : List ℕ) × (d.file ≡ some bytes) × IsFrom (fgets_lines 1024 bytes) word

-- The file does not open, or has no line that is short enough.
abbrev pub IsBarren : Draw → Type 0
IsBarren d = (bytes : List ℕ) → d.file ≡ some bytes → NoneEligible (fgets_lines 1024 bytes)

set_word : (f : Fsm) (w : List ℕ) → w ≡ f.hangman_word → record f { hangman_word = w } ≡ f
set_word f w e = ground arith

-- After set_random_word the word is an eligible line of the word file, or else the record is as
-- before and the file did not open or has no eligible line.
pub set_random_word-cases :
    (d : Draw) (f : Fsm)
    → IsDrawn d (set_random_word d f).hangman_word ⊎ ((set_random_word d f ≡ f) × IsBarren d)
unfolding set_random_word
set_random_word-cases d f = elim (Option-cases d.file) [
  | inl closed ↦ inr (ground arith, λ bytes e. cc)
  | inr (bytes, opened) ↦
      let chosen = choose_word d.rand 0 (fgets_lines 1024 bytes) f.hangman_word in
      let eq : set_random_word d f ≡ record f { hangman_word = chosen } = ground arith in
      elim (choose_word-Chooses d.rand 0 (fgets_lines 1024 bytes) f.hangman_word) [
        | inl from ↦ inl (
          bytes,
          opened,
          subst (λ g. IsFrom (fgets_lines 1024 bytes) g.hangman_word) (sym eq) from,
        )
        | inr (same, rest) ↦ inr (
          eq ∙ set_word f chosen same,
          λ bytes' e. subst (λ b. NoneEligible (fgets_lines 1024 b)) (cc) (rest refl),
        )
      ]
]

pub set_random_word-state :
    (d : Draw) (f : Fsm)
    → ((set_random_word d f).state ≡ f.state)
      × ((set_random_word d f).hangman_round_initialized ≡ f.hangman_round_initialized)
unfolding set_random_word
set_random_word-state d f = ground arith

-- The file has an eligible line, and its eligible lines are non-empty words of lower-case letters.
pub record IsGood (d : Draw) : Type 0 where
  pub fertile : ¬ IsBarren d
  pub words : (word : List ℕ) → IsDrawn d word → IsWord word × (word ≢ [])

-- Every letter is among the inputs, in either case.
abbrev pub CoversAlphabet : List ℕ → Type 0
CoversAlphabet inputs = (c : ℕ) → is_lower c ≡ true → contains (map to_lower inputs) c ≡ true

solved-CoversAlphabet :
    (w inputs : List ℕ)
    → IsWord w
    → CoversAlphabet inputs
    → solved w (map to_lower inputs ++ []) ≡ true
unfolding solved
solved-CoversAlphabet [] inputs word covers = refl
solved-CoversAlphabet (x ∷ w) inputs word covers = rw append-nil (
    ground
      (arith, covers x word.0, rw append-nil at (solved-CoversAlphabet w inputs word.1 covers)))

not_solved : (w : List ℕ) → w ≢ [] → solved w [] ≡ false
unfolding solved contains
not_solved [] h = absurd (h refl)
not_solved (x ∷ w) h = refl

-- A game started from the initial state, with no round begun, on a word file with an eligible line
-- whose eligible lines are non-empty and lower-case, is back in the initial state once guesses
-- that include every letter of the alphabet were taken.
pub game-ends :
    (d : Draw) (f : Fsm) (inputs : List ℕ)
    → IsGood d
    → f.state ≡ initial
    → f.hangman_round_initialized ≡ false
    → CoversAlphabet inputs
    → (play_round d (process_hangman_state d f 0).0 inputs).state ≡ initial
unfolding process_hangman_state
game-ends d f inputs good start fresh covers = elim (set_random_word-cases d f) [
  | inr (_, barren) ↦ absurd (good.fertile barren)
  | inl drawn ↦
      let (word, chosen) = good.words _ drawn in
      let g : Fsm = record (set_random_word d f) { state = playing } in
      simp start (
        play_round-ends d inputs [] g chosen word
          (inl ((set_random_word-state d f).1 ∙ fresh, refl)) refl (not_solved _ chosen)
          (solved-CoversAlphabet _ inputs word covers))
]
