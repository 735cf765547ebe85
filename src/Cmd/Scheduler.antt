-- ===== src/Cmd/Scheduler.antt =====
-- cmd/scheduler/main.go: the runnables and reconcilers that drive the scheduler's cache, and the
-- priorities of its queue.
pub mod Nodes
pub mod Charges
pub mod Registrations
pub mod Recharging
pub mod Sweeping
pub mod Slices
pub mod Following
pub mod Priorities
