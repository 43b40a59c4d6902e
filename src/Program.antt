-- ===== src/Program.antt =====
-- The user's programs (main.c, gclient.c) and the server's (gserver.c): the state that the commands
-- share, the loops that read lines and frames, and the start of each program.
pub mod World
pub mod Loop
pub mod Start
pub mod Console
pub mod Heard
pub mod Link
pub mod Group
pub mod Handshake
pub mod Delivery
