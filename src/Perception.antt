-- ===== src/Perception.antt =====
-- crates/vcli-perception: what the daemon sees. The evaluators thread the state explicitly.
pub mod State
pub mod Evaluation
pub mod ColorAt
pub mod Crop
pub mod PixelDiff
pub mod Template
