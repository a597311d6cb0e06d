-- ===== src/Dao.antt =====
-- The DAO module (src/dao).
pub mod CommitReveal
