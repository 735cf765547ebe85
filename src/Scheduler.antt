-- ===== src/Scheduler.antt =====
-- internal/scheduler: the parts of a scheduling decision that stand on the cache, and the cycle that
-- runs them.
pub mod Filter
pub mod Score
pub mod Reserve
pub mod Quota
pub mod Preemptor
pub mod Gang
pub mod PriorityQueue
pub mod Plugin
mod Examples
