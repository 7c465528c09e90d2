-- ===== src/Ipc.antt =====
-- crates/vcli-ipc/src: the wire between the daemon and its clients.
pub mod Frame
