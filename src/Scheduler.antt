-- ===== src/Scheduler.antt =====
-- The batch scheduler of src/scheduler.rs: its data, its operations and what is proved of them.
pub mod State
pub mod Batches
pub mod Lanes
pub mod Ops
pub mod Ends
pub mod Places
pub mod Completion
pub mod Invariant
pub mod Handing
pub mod Answering
pub mod Answers
pub mod Calls
pub mod Values
pub mod Start
pub mod Tests
pub mod Accepting
pub mod Failing
pub mod Dispatching
pub mod Results
pub mod Remotes
