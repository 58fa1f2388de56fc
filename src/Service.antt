-- ===== src/Service.antt =====
-- The scheduler service: src/firstgreen/service.py.
pub mod Admission
pub mod Loop
pub mod Run
pub mod Composition
pub mod Delivery
pub mod Samples
pub mod Examples
pub mod Verifications
pub mod Policy
pub mod Reverify
pub mod Attempts
