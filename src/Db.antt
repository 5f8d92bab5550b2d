-- ===== src/Db.antt =====
-- The database layer (src/db).
pub mod Database
