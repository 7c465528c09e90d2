-- ===== src/Dsl.antt =====
-- crates/vcli-dsl/src: the validation of a submitted program.
pub mod Path
pub mod Error
pub mod Expression
pub mod Hint
pub mod Predicates
pub mod Steps
pub mod Watches
pub mod Validation
