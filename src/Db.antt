-- ===== src/Db.antt =====
-- server/src/db: the tables and their queries.
pub mod Repo
pub mod Users
