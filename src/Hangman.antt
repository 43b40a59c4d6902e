-- ===== src/Hangman.antt =====
-- The Hangman game (hangman.h, hangman.c).
pub mod Fsm
pub mod Guess
pub mod Screen
pub mod Words
pub mod Process
pub mod Rules
pub mod Refines
pub mod Verdicts
pub mod Endgame
pub mod Rounds
pub mod Choice
pub mod Sizes
