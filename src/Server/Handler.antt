-- ===== src/Server/Handler.antt =====
-- `handle_client_data` (group_server_comms.c), in parts, and `process_connections`.
pub mod Frames
pub mod Hangman
pub mod Strings
pub mod Dispatch
