-- ===== src/Db.antt =====
-- Persistence: src/firstgreen/db.
pub mod Sql
pub mod Tables
pub mod Repository
pub mod Samples
pub mod Examples
