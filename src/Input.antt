-- ===== src/Input.antt =====
-- crates/vcli-input: the input that the daemon sends, as far as it is not the operating system's.
pub mod KillSwitch
pub mod Mock
