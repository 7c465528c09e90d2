-- ===== src/Runtime.antt =====
-- crates/vcli-runtime: the scheduler and its parts. `Env` is what the parts call from outside the
-- crate; each function gives back the world that it leaves.
pub mod Error
pub mod Program
pub mod Watches
pub mod Arbiter
pub mod Expr
pub mod World
pub mod Body
pub mod Scheduler
