-- ===== src/Server.antt =====
-- The group server (group_server_comms.c, group_server.c, group_commands.c): its poll array, the
-- group that it keeps, the Hangman players and the handling of what clients send.
pub mod Users
pub mod State
pub mod Pollset
pub mod History
pub mod Handler
pub mod Synced
pub mod Clients
pub mod Handled
pub mod Archive
pub mod Broadcast
pub mod Departure
pub mod Roster
pub mod Connections
pub mod Turns
pub mod Order
pub mod Senders
pub mod Newcomer
pub mod Serving
pub mod Rounds
pub mod Schedule
pub mod Replies
pub mod Game
