-- ===== src/Planning.antt =====
-- Planning: from a request to an approved plan. src/firstgreen/planning.
pub mod StateMachine
pub mod Models
pub mod Parallelism
pub mod Schedule
pub mod Analysis
pub mod Texts
pub mod Paths
pub mod Verifiers
pub mod Cycles
pub mod Merge
pub mod Checks
pub mod Conflicts
pub mod Candidate
pub mod Compile
pub mod Execution
pub mod Decomposition
pub mod Store
pub mod Proposals
pub mod Workflow
pub mod Samples
pub mod Examples
