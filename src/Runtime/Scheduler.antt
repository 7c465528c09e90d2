-- ===== src/Runtime/Scheduler.antt =====
-- crates/vcli-runtime/src/scheduler.rs. The tick is split where the source starts a new loop; the
-- children prove what it keeps.
pub mod State
pub mod Commands
pub mod Watching
pub mod Firing
pub mod Stepping
pub mod Tick
pub mod Log
pub mod Quiet
pub mod Tracked
pub mod Shadowing
pub mod Lifecycle
