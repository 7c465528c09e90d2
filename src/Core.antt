-- ===== src/Core.antt =====
-- crates/vcli-core: the shared types of the daemon, one child for each group of source files.
pub mod State
pub mod Predicate
pub mod Program
pub mod Event
pub mod Canonical
pub mod Sha256
