-- ===== src/Daemon.antt =====
-- crates/vcli-daemon: the event pump into the store, and the start of the daemon.
pub mod Persist
pub mod Startup
pub mod Assets
pub mod Requests
pub mod Service
pub mod Handler
pub mod Rows
pub mod Restart
pub mod Mirror
pub mod Reload
pub mod Streams
