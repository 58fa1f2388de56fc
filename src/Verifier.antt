-- ===== src/Verifier.antt =====
-- src/firstgreen/verifier: the deterministic checks of a worktree.
pub mod Runner
pub mod Examples
