-- ===== src/Runtime.antt =====
-- The distributed runtime of crates/hataori-runtime.
pub mod Errors
pub mod Message
pub mod Wire
pub mod Dedup
pub mod Pending
