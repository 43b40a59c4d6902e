-- ===== src/Examples.antt =====
-- Concrete runs of the program's parts.
mod Hangman
mod Registry
mod Lmp
mod Server
mod Client
mod Uid
mod Roster
mod Directory
mod Net
mod Chat
mod Stickers
mod Session
mod Link
mod Group
mod Handshake
mod Schedule
mod Game
