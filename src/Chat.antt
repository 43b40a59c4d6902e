-- ===== src/Chat.antt =====
-- The chat of two users (lmp.c, base_commands.c): its state, and the handlers of the basic commands.
pub mod History
pub mod Nick
pub mod Handlers
pub mod Transcript
pub mod Kept
pub mod Handshake
