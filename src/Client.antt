-- ===== src/Client.antt =====
-- The client of a group (group_commands.c, group_user.c).
pub mod Member
pub mod Loading
