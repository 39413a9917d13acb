-- ===== src/Modules.antt =====
-- The handlers of zsr/module/mod_*.c: `collect_record` and `record_to_str`. A record list is the list
-- of its entries, in order; `malloc` is taken to succeed.
pub mod Memory
pub mod Sized
pub mod Buffer
pub mod Single
pub mod Snapshot
pub mod Lines
pub mod Handlers
pub mod History
pub mod Print
