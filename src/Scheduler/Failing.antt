-- ===== src/Scheduler/Failing.antt =====
-- src/scheduler.rs: a failed run stays failed and hands out nothing.
use hataori_rs.Prelude.{◌≡◌, refl, true, List, [], ◌∷◌, arith, ok, err}
use hataori_rs.Prelude.Int.{ℤ, int_key}
use hataori_rs.Scheduler.State.{Coordinator, SchedulerError, BatchId}
use hataori_rs.Scheduler.Lanes.{prefetch_request, mark_stopping, add_prefetched}
use hataori_rs.Scheduler.Ops.{
  on_remote_ready, next_root_batch, on_root_error, on_remote_error, on_remote_protocol_error,
  on_remote_drain, on_root_success, on_remote_success,
}
use hataori_rs.Scheduler.Ends.{into_results}
use hataori_rs.Scheduler.Calls.{
  Call, root_batch, remote_ready, root_success, remote_success, root_error, remote_error,
  remote_protocol_error, remote_drain, perform, run,
}

-- The answers that make a run fail.
pub data IsFailure (U : Type 0) : Call U → Type 0 where
  root_failure : (id : BatchId) → IsFailure U (root_error id)
  remote_failure : (rank : ℤ) (id : BatchId) → IsFailure U (remote_error rank id)
  protocol_failure : (rank : ℤ) → IsFailure U (remote_protocol_error rank)

module _ {T U : Type 0} where
  pub perform-failed :
      (c : Coordinator T U) (call : Call U)
      → c.failed ≡ true
      → ((perform call c).1.failed ≡ true) × ((perform call c).1.ordered ≡ c.ordered)
  unfolding perform next_root_batch on_remote_ready prefetch_request mark_stopping add_prefetched
      on_root_success on_remote_success on_root_error on_remote_error on_remote_protocol_error
      on_remote_drain
  perform-failed c root_batch bad = ground arith
  perform-failed c (remote_ready rank) bad = ground arith
  perform-failed c (root_success id results) bad = ground arith
  perform-failed c (remote_success rank id results) bad = ground arith
  perform-failed c (root_error id) bad = ground arith
  perform-failed c (remote_error rank id) bad = ground arith
  perform-failed c (remote_protocol_error rank) bad = ground arith
  perform-failed c (remote_drain rank) bad = ground arith

  run-failed :
      (calls : List (Call U)) (c : Coordinator T U)
      → c.failed ≡ true
      → ((run calls c).failed ≡ true) × ((run calls c).ordered ≡ c.ordered)
  unfolding run
  run-failed [] c bad = (bad, refl)
  run-failed (call ∷ calls) c bad =
      ground (arith, perform-failed c call bad, run-failed calls (perform call c).1)

  failure-failed :
      (c : Coordinator T U) (call : Call U)
      → IsFailure U call
      → (perform call c).0 ≡ ok tt
      → ((perform call c).1.failed ≡ true) × ((perform call c).1.pending ≡ [])
  unfolding perform on_root_error on_remote_error on_remote_protocol_error
  failure-failed c call (root_failure id) e = ground arith
  failure-failed c call (remote_failure rank id) e = ground arith
  failure-failed c call (protocol_failure rank) e = ground arith

  -- Once the coordinator has accepted a lane's error, whatever calls follow: the queue is empty at
  -- once, no later result is stored, and the run ends in `failed`.
  pub failure-into_results :
      (c : Coordinator T U) (call : Call U) (calls : List (Call U))
      → IsFailure U call
      → (perform call c).0 ≡ ok tt
      → ((perform call c).1.pending ≡ [])
        × ((run calls (perform call c).1).ordered ≡ (perform call c).1.ordered)
        × (into_results (run calls (perform call c).1) ≡ err SchedulerError.failed)
  unfolding into_results
  failure-into_results c call calls failure accepted =
      let (bad, empty) = failure-failed c call failure accepted in
      let (still, kept) = run-failed calls (perform call c).1 bad in (empty, kept, ground arith)
