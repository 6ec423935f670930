-- ===== src/Runtime/Dedup.antt =====
-- crates/hataori-runtime/src/dedup.rs: the table that makes a request run once.
pub mod Table
pub mod Complete
pub mod Invariant
pub mod Weighing
pub mod Calls
pub mod Expiry
pub mod Replay
pub mod Leak
pub mod Tests
