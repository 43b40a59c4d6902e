-- ===== src/Stickers.antt =====
-- The stickers of a user (sticker_commands.c).
pub mod Table
pub mod Editor
pub mod Commands
pub mod RoundTrip
pub mod Session
pub mod Sending
