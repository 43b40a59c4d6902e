-- ===== src/Examples/Hangman.antt =====
-- A game of Hangman (hangman.c) with the word "cat".
use socket_speak.Base.{
  ℕ, ◌<◌, ◌≡◌, refl, inr, List, [], ◌∷◌, ◌++◌, true, false, ◌&&◌, not, none, some, arith, codes,
  length, to_lower, contains, if◌then◌else◌, is_lower, is_upper, fgets_lines, strip_newline, cstr,
  sym, ap, subst, ◌∙◌,
}
use mathlib.Core.List.{Memᴰ}
use socket_speak.Hangman.Fsm.{initial, playing, Fsm}
use socket_speak.Hangman.Words.{Draw, is_eligible}
use socket_speak.Hangman.Process.{
  update_hangman, play_guess, guess_verdict, bar, process_hangman_state,
}
use socket_speak.Hangman.Rules.{Follows}
use socket_speak.Hangman.Refines.{guessed, Ready}
use socket_speak.Hangman.Verdicts.{IsWord, rule_verdict, guess_verdict-rules}
use socket_speak.Hangman.Endgame.{HasWord, over, update_hangman-Follows, update_hangman-over}
use socket_speak.Hangman.Rounds.{play_round, play_round_no_word}
use socket_speak.Hangman.Choice.{IsFrom, IsDrawn, IsBarren, IsGood, CoversAlphabet, game-ends}
use socket_speak.Hangman.Sizes.{Fits, update_hangman-Fits}

-- The round has begun, and `x` was guessed.
abbrev cat_game : Fsm
cat_game = record {
  state = playing;
  hangman_word = codes "cat";
  guessed_letters = codes "x";
  attempts_left = 4;
  revealed_word = codes "___";
  hangman_round_initialized = true;
}

cat_chosen : HasWord cat_game
cat_chosen = ground arith

cat-IsWord : IsWord (codes "cat")
unfolding is_lower
cat-IsWord = (refl, (refl, (refl, tt)))

cat_listed :
    (c : ℕ) → contains (codes "x") c ≡ (contains (codes "x") c && not (contains (codes "cat") c))
unfolding contains
cat_listed c = ground arith

cat-Follows : Follows (codes "x") cat_game
unfolding contains
cat-Follows = record { shown = refl; listed = cat_listed; once = (refl, tt); paid = refl }

cat-Ready : Ready (codes "x") cat_game
cat-Ready = inr (refl, cat-Follows, omega arith)

update_hangman-Follows_example :
    Follows (guessed (codes "x") (to_lower b'A')) (update_hangman cat_game b'A').0
update_hangman-Follows_example =
    update_hangman-Follows (codes "x") cat_game b'A' cat_chosen cat-Ready

update_hangman-over_example :
    let o = (update_hangman cat_game b'A').0 in
    let done = over (guessed (codes "x") (to_lower b'A')) o in
    (o.state ≡ (if done then initial else playing))
    × (o.hangman_round_initialized ≡ not done)
    × (o.hangman_word ≡ codes "cat")
update_hangman-over_example =
    update_hangman-over (codes "x") cat_game b'A' cat_chosen cat-Ready cat-IsWord

guess_verdict-rules_example :
    guess_verdict cat_game b'x'
    ≡ rule_verdict
        (codes "cat")
        (codes "x")
        (to_lower b'x')
        (play_guess cat_game b'x').fsm.attempts_left
guess_verdict-rules_example = guess_verdict-rules (codes "x") cat_game b'x' cat-IsWord cat-Ready

update_hangman-Fits_example :
    Fits (update_hangman cat_game b'?').0
    × (length (update_hangman cat_game b'?').1 < 512)
    × (length ((update_hangman cat_game b'?').1 ++ bar) < 1024)
update_hangman-Fits_example =
    update_hangman-Fits (codes "x") cat_game b'?' cat_chosen cat-Ready (omega arith)

-- The word file holds one word.
abbrev cat_draw : Draw
cat_draw = record { file = some (codes "cat\n"); rand = λ n. 0 }

-- The word file does not open.
abbrev no_word_game : Fsm
no_word_game = record {
  state = playing;
  hangman_word = [];
  guessed_letters = [];
  attempts_left = 0;
  revealed_word = [];
  hangman_round_initialized = false;
}

play_round_no_word_example : play_round cat_draw no_word_game (codes "ab") ≡ no_word_game
play_round_no_word_example = play_round_no_word cat_draw no_word_game (codes "ab") refl refl

abbrev no_game : Fsm
no_game = record no_word_game { state = initial }

abbrev alphabet : List ℕ
alphabet = codes "abcdefghijklmnopqrstuvwxyz"

alphabet_covers : CoversAlphabet alphabet
unfolding contains to_lower is_upper is_lower
alphabet_covers c h = ground arith

cat_lines : fgets_lines 1024 (codes "cat\n") ≡ (codes "cat\n" ∷ [])
unfolding fgets_lines
cat_lines = refl

cat_from : (word : List ℕ) → IsFrom (codes "cat\n" ∷ []) word → word ≡ codes "cat"
unfolding strip_newline cstr
cat_from word (line, Memᴰ.head e, fits, w) = rw e at w
cat_from word (line, Memᴰ.tail m, fits, w) = elim m [ ]

cat_drawn : (word : List ℕ) → IsDrawn cat_draw word → word ≡ codes "cat"
cat_drawn word (bytes, e, from) =
    let same : bytes ≡ codes "cat\n" = sym (ap (λ o. elim o [ none ↦ [] | some b ↦ b ]) e) in
    cat_from word (subst (λ ls. IsFrom ls word) (ap (fgets_lines 1024) same ∙ cat_lines) from)

cat_fertile : ¬ IsBarren cat_draw
unfolding is_eligible strip_newline cstr fgets_lines
cat_fertile barren = ground (arith, (barren (codes "cat\n") refl).0)

cat-IsGood : IsGood cat_draw
cat-IsGood = record {
  fertile = cat_fertile;
  words = λ word drawn. rw (cat_drawn word drawn) (cat-IsWord, cat_chosen);
}

game-ends_example :
    (play_round cat_draw (process_hangman_state cat_draw no_game 0).0 alphabet).state ≡ initial
game-ends_example = game-ends cat_draw no_game alphabet cat-IsGood refl refl alphabet_covers
