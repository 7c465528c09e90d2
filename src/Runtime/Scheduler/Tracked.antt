-- ===== src/Runtime/Scheduler/Tracked.antt =====
-- Every operation of the scheduler keeps its table and its event log in agreement.
pub mod Changes
pub mod Commands
pub mod Phases
pub mod Run
