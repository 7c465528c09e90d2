-- ===== src/Examples.antt =====
-- Concrete programs, screens and stores, and runs of the code on them.
pub mod Data
pub mod Schedules
pub mod Stores
pub mod Files
pub mod Screens
pub mod Bodies
pub mod Programs
pub mod Requests
pub mod Expressions
pub mod Frames
pub mod Documents
pub mod Pictures
pub mod Switches
