-- ===== src/Cmd.antt =====
-- cmd: what the commands do besides the wiring.
pub mod Scheduler
mod Examples
