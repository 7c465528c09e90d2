-- ===== src/Runtime/Scheduler/Lifecycle.antt =====
-- A tick moves the programs along the state machine, and only there.
pub mod Moves
pub mod Keys
pub mod Phases
pub mod Dispatch
pub mod Starting
pub mod Tables
pub mod Ticks
