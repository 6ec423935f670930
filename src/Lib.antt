-- ===== src/Lib.antt =====
-- Verification of hataori-rs, a Rust engine for serial, threaded, MPI and hybrid data-parallel
-- maps and for a distributed runtime of actions and remote objects.
--
-- The batch scheduler (src/scheduler.rs) is the core of the collective `pmap`: one coordinator owns
-- the queue of items, hands batches to a root lane and to remote lanes, takes their results back in
-- any order and returns them in input order.
--   Scheduler/State: the data. Scheduler/Batches: cutting a batch, `validate_completion`, storing
--   results. Scheduler/Lanes: the `match`es on a lane's state. Scheduler/Ops: the methods
--   of `Coordinator` under their Rust names. Scheduler/Ends: `new_with_prefetch`, `is_finished`,
--   `into_results`. The other modules below Scheduler hold proofs, and Scheduler/Tests runs.
--   A method `fn m(&mut self, ..) -> Result<A, SchedulerError>` is a function from the state to an
--   outcome and the state after it; the outcome is `ok`, `err` or `panic`, where `expect`,
--   `unreachable!` and an index out of bounds panic. Maps are association lists; a rank is a signed
--   integer, batch ids and indices are numbers with the source's tests of their range.
--   The items number fewer than 2 ^ 64, as a Rust `Vec` does. `NonZeroUsize` is a number with the
--   hypothesis that it is positive. `Display` and the counters under `cfg(test)` are left out.
--
-- The protocol (crates/hataori-runtime-foundation/src/protocol.rs) is what peers say to one another:
-- a hello when they connect, then parcels of byte segments.
--   Protocol/Ids: errors, identities, channels and kinds. Protocol/Limits: `ProtocolLimits::validate`
--   and `negotiate`. Protocol/Reader: the byte reader. Protocol/Hello: `validate_peer`,
--   `encode_hello`, `decode_hello`. Protocol/Parcel: `Parcel`, `encode_parcel`, `decode_parcel`.
--   Protocol/Frames, HelloTrip, ParcelTrip, ParcelFit and PeerCheck hold proofs, Protocol/Tests runs.
--   A byte string is a list of numbers, a `usize` has 64 bits, and an integer in a message is its
--   bytes in little-endian order.
--
-- The runtime (crates/hataori-runtime/src) sends calls to its peers and keeps them until they are
-- answered (pending.rs). It keeps the requests that it was asked to run, so that a request which is
-- sent again runs once (dedup.rs).
--   Runtime/Errors: error.rs. Runtime/Message: messages. Runtime/Dedup/Table and Complete: the
--   methods of `DedupTable` under their Rust names. The other modules below Runtime/Dedup hold
--   proofs, and Runtime/Dedup/Tests runs.
--   Runtime/Wire: `encode`, `decode` and `validate_shape` of wire.rs, which put a message into a
--   parcel's segments and read it back; the test for UTF-8 is a parameter. Its proofs and runs are
--   below it.
--   Runtime/Pending: `PendingTable` of pending.rs, the calls that await an answer, and, below it,
--   Promises: `Promise`. The future that wraps a promise is left out.
--   The tables are association lists; times are numbers and only grow by addition; the shared
--   cancellation flag of a running entry is a Boolean of the entry.
--
-- Transports (crates/hataori-runtime-foundation/src/transport.rs) carry parcels between peers.
--   Transport: the types of tickets, events, statistics and errors. Transport/Submission:
--   `SubmissionState`, the queue and byte limits that the threads of a process share, each method
--   a step, since its gate lets in one reservation at a time; its proofs and runs are below it.
--   Transport/Memory (memory.rs): the data of the network in memory. Transport/Memory/Network: the
--   methods of `State`. Transport/Memory/Driving: `build`, `try_send`, `progress`, `stats` and the
--   locked sections of the other methods. A section under the mutex is one step: `try_send` and
--   `progress` are one each, while `flush` takes the mutex anew in each round, and `shutdown` before
--   its flush and after it. Transport/Memory/Waiting: `NetworkStep`, any of these sections, and
--   `flush` and `shutdown`, whose arguments are the steps that other threads take while the mutex is
--   free. A flush has as many rounds as end before its deadline, and one more. `progress` and
--   `shutdown` return the events that they push. The other modules below Transport/Memory hold
--   proofs, and Tests runs.
--
-- The algorithms (crates/hataori-algorithms/src) run a map over a runtime in bounded batches.
--   Algorithms: options.rs and error.rs. Algorithms/Controller: `build`, `pmap`, `pmap_at` and the
--   poll of `PmapFuture` in batch.rs; the runtime that serves a batch is two parameters, `submit` and
--   `poll_future`, over a state of its own, and `Serves` says what is asked of it. A poll's loop has
--   as many rounds as there are batches left, and one more. The other modules below Algorithms hold
--   proofs, and Algorithms/Tests runs. The colocated maps are left out.
--   Algorithms/Codec: the encoding of a batch, `put`, `take` (as `take_number`), `encode_nested` and
--   `decode_nested`, and `BatchAction` as a `WireValue`; its proofs and runs are below it. The
--   encoding of an item is a parameter. The encoding of a reply is left out.
--
-- Shared: Prelude (lists, tests, maps, outcomes, state passed through fallible steps).
-- Not modelled: sockets, MPI calls, threads, Rayon and wakers, which are other programs' code; and
-- the owner loop, remote objects, placement, execution domains and the collective driver of `pmap`.
pub mod Prelude
pub mod Scheduler
pub mod Protocol
pub mod Transport
pub mod Runtime
pub mod Algorithms
