-- ===== src/Domain.antt =====
-- The domain records and their state machine: src/firstgreen/domain.
pub mod Models
pub mod Transitions
pub mod History
