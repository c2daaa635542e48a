-- ===== src/Scripts.antt =====
-- The tools of the repository: scripts.
pub mod Migrate
