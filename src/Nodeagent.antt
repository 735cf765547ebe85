-- ===== src/Nodeagent.antt =====
-- internal/nodeagent: the agent of a node.
pub mod Allocator
pub mod Checkpoint
pub mod Manager
pub mod Drift
pub mod Violation
pub mod SliceViolation
pub mod Enforcement
mod Examples
mod Scenarios
