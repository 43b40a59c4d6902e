-- ===== src/Net.antt =====
-- Finding and reaching peers (comms.c, group_user_comms.c, group_server_comms.c): what the functions
-- do with the answers of the operating system. `opened` and `closed` are the descriptors.
pub mod Address
pub mod Calls
pub mod Leaks
pub mod Programs
pub mod Discovery
pub mod Ends
pub mod Clients
pub mod Answers
