-- ===== src/Config.antt =====
-- The manifest's schema and its validation: src/firstgreen/config.py.
pub mod Models
pub mod Dag
pub mod Samples
pub mod Examples
