-- ===== src/Scheduler.antt =====
-- Scheduling policies: src/firstgreen/scheduler.
pub mod Concurrency
pub mod Hedging
pub mod Queue
pub mod Racing
pub mod Examples
