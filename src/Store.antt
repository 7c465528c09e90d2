-- ===== src/Store.antt =====
-- crates/vcli-store/src/{store,resume,events,gc,assets}.rs: the SQLite store. A table is the list of its
-- rows in rowid order and each SQL statement is the list operation that it denotes; the column
-- `state` holds the state itself, which its text form gives back. SQLite and the file system are
-- taken to succeed, so an error is one that a statement's result or a constraint gives.
pub mod Rows
pub mod Resume
pub mod Gc
pub mod Assets
pub mod Updates
pub mod Recovery
