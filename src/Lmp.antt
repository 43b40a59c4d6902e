-- ===== src/Lmp.antt =====
-- The LAN messaging protocol: framing (lmp.h, lmp.c, group_server_comms.c, group_user_comms.c) and
-- the command registry (lmp.c, commands_registry.c).
pub mod Socket
pub mod ReadAll
pub mod Frame
pub mod Recv
pub mod RoundTrip
pub mod Exchange
pub mod Registry
pub mod Dispatch
pub mod Lines
pub mod Code
pub mod Commands
