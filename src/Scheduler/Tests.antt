-- ===== src/Scheduler/Tests.antt =====
-- src/scheduler.rs: runs of the coordinator on small inputs, and the theorems at concrete inputs.
use hataori_rs.Prelude.{
  ℕ, ◌*◌, ◌≡◌, refl, true, false, none, List, [], ◌∷◌, arith, Result, ok, err, map, ◌↔◌,
}
use hataori_rs.Prelude.Int.{pos}
use hataori_rs.Prelude.Assoc.{lookup, insert}
use hataori_rs.Scheduler.State.{
  Coordinator, SchedulerError, ItemResult, LaneState, RunningMeta, Batch, Lane,
}
use hataori_rs.Scheduler.Batches.{check_results, check_result, validate_completion, fill}
use hataori_rs.Scheduler.Lanes.{
  prefetch_request, mark_stopping, add_prefetched, remote_current, advanced, root_current,
  drained_lane,
}
use hataori_rs.Scheduler.Ops.{
  next_root_batch, on_remote_ready, on_remote_success, on_root_success, on_remote_error,
  on_remote_drain,
}
use hataori_rs.Scheduler.Ends.{new_with_prefetch, into_results, is_finished}
use hataori_rs.Scheduler.Invariant.{Inv, Safe}
use hataori_rs.Scheduler.Calls.{
  Call, root_batch, remote_ready, root_success, remote_success, remote_error, remote_drain, perform,
  run, perform-Safe, run-Inv,
}
use hataori_rs.Scheduler.Dispatching.{
  Cut, next_root_batch-Cut, on_remote_ready-Cut, on_remote_ready-stop,
}
use hataori_rs.Scheduler.Failing.{failure-into_results, remote_failure}
use hataori_rs.Scheduler.Accepting.{Matches, on_remote_success-accepts, on_root_success-accepts}
use hataori_rs.Scheduler.Handing.{next_root_batch-Safe}
use hataori_rs.Scheduler.Start.{new_with_prefetch-Inv}
use hataori_rs.Scheduler.Results.{run-into_results}

ten_times : ℕ → ℕ
ten_times n = n * 10

abbrev inputs : List ℕ
inputs = 1 ∷ 2 ∷ 3 ∷ []

-- Three items in batches of one, a root and one prefetching remote.
abbrev started : Result SchedulerError (Coordinator ℕ ℕ)
started = new_with_prefetch (pos 0) (pos 1 ∷ []) inputs 1 true

abbrev fresh_start : Coordinator ℕ ℕ
fresh_start = record {
  pending =
      record { original_index = 0; value = 1 }
      ∷ record { original_index = 1; value = 2 }
      ∷ record { original_index = 2; value = 3 }
      ∷ [];
  ordered = none ∷ none ∷ none ∷ [];
  batch_size = 1;
  next_batch_id = 0;
  root = LaneState.idle;
  remotes = (pos 1, LaneState.idle) ∷ [];
  prefetch = true;
  failed = false;
}

started_lem : started ≡ ok fresh_start
unfolding new_with_prefetch lookup insert
started_lem = refl

abbrev result : ℕ → ℕ → ItemResult ℕ
result i u = record { original_index = i; value = u }

-- The remote takes two batches, the root one; they are answered out of order.
abbrev session : List (Call ℕ)
session =
    remote_ready (pos 1)
    ∷ remote_ready (pos 1)
    ∷ root_batch
    ∷ root_success 2 (result 2 30 ∷ [])
    ∷ remote_success (pos 1) 0 (result 0 10 ∷ [])
    ∷ remote_ready (pos 1)
    ∷ remote_success (pos 1) 1 (result 1 20 ∷ [])
    ∷ root_batch
    ∷ remote_ready (pos 1)
    ∷ remote_drain (pos 1)
    ∷ []

-- What a run computes with.
machine : Unit {0}
unfolding run perform on_remote_error next_root_batch on_remote_ready on_root_success
    on_remote_success on_remote_drain prefetch_request mark_stopping add_prefetched remote_current
    advanced root_current drained_lane validate_completion check_results check_result fill lookup
    insert
machine = tt

session_ends : into_results (run session fresh_start) ≡ ok (10 ∷ 20 ∷ 30 ∷ [])
unfolding into_results machine
session_ends = refl

fresh_start-Inv : Inv fresh_start
fresh_start-Inv =
    new_with_prefetch-Inv (pos 0) (pos 1 ∷ []) inputs 1 true fresh_start (omega arith) (omega arith)
      started_lem

new_with_prefetch-Inv_example : Inv fresh_start
new_with_prefetch-Inv_example =
    new_with_prefetch-Inv (pos 0) (pos 1 ∷ []) inputs 1 true fresh_start (omega arith) (omega arith)
      started_lem

run-into_results_example : into_results (run session fresh_start) ≡ ok (map ten_times inputs)
unfolding machine is_finished ten_times
run-into_results_example =
    run-into_results ten_times (pos 0) (pos 1 ∷ []) inputs 1 true fresh_start session (omega arith)
      (omega arith) started_lem
      (
        tt,
        (
          tt,
          (
            tt,
            (
              ((3, refl, refl), tt),
              (((1, refl, refl), tt), (tt, (((2, refl, refl), tt), (tt, (tt, (tt, tt)))))),
            ),
          ),
        ),
      )
      refl refl

-- The lane answers with a wrong index: refused, and nothing changes.
busy : Coordinator ℕ ℕ
busy = run (remote_ready (pos 1) ∷ []) fresh_start

busy-Inv : Inv busy
unfolding busy
busy-Inv = run-Inv fresh_start (remote_ready (pos 1) ∷ []) fresh_start-Inv

perform-Safe_example :
    Safe busy (λ _ s. Inv s) (perform (remote_success (pos 1) 0 (result 1 10 ∷ [])) busy)
perform-Safe_example = perform-Safe busy (remote_success (pos 1) 0 (result 1 10 ∷ [])) busy-Inv

abbrev first_batch : Batch ℕ
first_batch = record { id = 0; items = record { original_index = 0; value = 1 } ∷ [] }

abbrev running_first : RunningMeta
running_first = record { batch_id = 0; original_indices = 0 ∷ [] }

on_remote_ready-Cut_example : Cut fresh_start busy first_batch
unfolding busy machine
on_remote_ready-Cut_example =
    on_remote_ready-Cut fresh_start busy fresh_start-Inv (pos 1) first_batch refl

next_root_batch-Cut_example : Cut fresh_start (next_root_batch fresh_start).1 first_batch
unfolding machine
next_root_batch-Cut_example =
    next_root_batch-Cut fresh_start (next_root_batch fresh_start).1 fresh_start-Inv first_batch refl

-- All three items are handed out.
spent : Coordinator ℕ ℕ
spent =
    run (remote_ready (pos 1) ∷ remote_ready (pos 1) ∷ root_batch ∷ remote_error (pos 1) 0 ∷ [])
      fresh_start

on_remote_ready-stop_example :
    (spent.pending ≡ []) × ((on_remote_ready (pos 1) spent).1.pending ≡ [])
unfolding spent machine
on_remote_ready-stop_example =
    on_remote_ready-stop spent (on_remote_ready (pos 1) spent).1
      (run-Inv fresh_start
        (remote_ready (pos 1) ∷ remote_ready (pos 1) ∷ root_batch ∷ remote_error (pos 1) 0 ∷ [])
        fresh_start-Inv)
      (pos 1) refl

failure-into_results_example :
    ((perform (remote_error (pos 1) 0) busy).1.pending ≡ [])
    × ((run (root_batch ∷ []) (perform (remote_error (pos 1) 0) busy).1).ordered
        ≡ (perform (remote_error (pos 1) 0) busy).1.ordered)
    × (into_results (run (root_batch ∷ []) (perform (remote_error (pos 1) 0) busy).1)
        ≡ err SchedulerError.failed)
unfolding busy machine
failure-into_results_example =
    failure-into_results busy (remote_error (pos 1) 0) (root_batch ∷ []) (remote_failure (pos 1) 0)
      refl

on_remote_success-accepts_example :
    ((on_remote_success (pos 1) 0 (result 0 10 ∷ []) busy).0
      ≡ ok (record { lane = Lane.remote (pos 1); batch_id = 0 }))
    ↔ Matches busy busy-Inv running_first 0 (result 0 10 ∷ [])
unfolding busy machine
on_remote_success-accepts_example =
    on_remote_success-accepts busy busy-Inv (pos 1) running_first none false 0 (result 0 10 ∷ [])
      refl

-- The root at work on the first item.
root_busy : Coordinator ℕ ℕ
root_busy = (next_root_batch fresh_start).1

root_busy-Inv : Inv root_busy
unfolding root_busy machine
root_busy-Inv = next_root_batch-Safe fresh_start fresh_start-Inv

on_root_success-accepts_example :
    ((on_root_success 0 (result 0 10 ∷ []) root_busy).0
      ≡ ok (record { lane = Lane.root; batch_id = 0 }))
    ↔ Matches root_busy root_busy-Inv running_first 0 (result 0 10 ∷ [])
unfolding root_busy machine
on_root_success-accepts_example =
    on_root_success-accepts root_busy root_busy-Inv running_first 0 (result 0 10 ∷ []) refl
