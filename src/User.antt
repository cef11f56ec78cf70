-- ===== src/User.antt =====
-- The programs of user/.
pub mod Grep
