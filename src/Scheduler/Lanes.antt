-- ===== src/Scheduler/Lanes.antt =====
-- src/scheduler.rs: how one lane's state answers an event, as the `match`es of the coordinator's
-- methods write it.
use hataori_rs.Prelude.{
  Bool, true, false, Option, none, some, Result, ok, err, panic, if◌then◌else◌,
}
use hataori_rs.Scheduler.State.{RunningMeta, LaneState, SchedulerError}
use hataori_rs.Scheduler.State.{LaneState}

abbrev unknown : {A : Type 0} → Result SchedulerError A
unknown = err SchedulerError.unknown_rank

abbrev wrong : {A : Type 0} → Result SchedulerError A
wrong = err SchedulerError.wrong_lane_state

-- `prefetch_request` of `on_remote_ready`: whether a ready lane asks for a second batch.
unfoldable pub prefetch_request : Bool → Option LaneState → Result SchedulerError Bool
prefetch_request prefetch none = unknown
prefetch_request prefetch (some LaneState.idle) = ok false
prefetch_request prefetch (some (LaneState.running current none false)) =
    if prefetch then ok true else wrong
prefetch_request prefetch (some (LaneState.running current none true)) = wrong
prefetch_request prefetch (some (LaneState.running current (some next) stopping)) = wrong
prefetch_request prefetch (some LaneState.stopped) = wrong
prefetch_request prefetch (some LaneState.drained) = wrong

-- `*stopping = true` behind `get_mut`.
unfoldable pub mark_stopping : Option LaneState → Result SchedulerError LaneState
mark_stopping none = unknown
mark_stopping (some (LaneState.running current prefetched stopping)) =
    ok (LaneState.running current prefetched true)
mark_stopping (some LaneState.idle) = panic
mark_stopping (some LaneState.stopped) = panic
mark_stopping (some LaneState.drained) = panic

-- `*prefetched = Some(metadata)` behind `get_mut`.
unfoldable pub add_prefetched : RunningMeta → Option LaneState → Result SchedulerError LaneState
add_prefetched batch none = unknown
add_prefetched batch (some (LaneState.running current prefetched stopping)) =
    ok (LaneState.running current (some batch) stopping)
add_prefetched batch (some LaneState.idle) = panic
add_prefetched batch (some LaneState.stopped) = panic
add_prefetched batch (some LaneState.drained) = panic

unfoldable pub remote_current : Option LaneState → Result SchedulerError RunningMeta
remote_current none = unknown
remote_current (some (LaneState.running current prefetched stopping)) = ok current
remote_current (some LaneState.idle) = wrong
remote_current (some LaneState.stopped) = wrong
remote_current (some LaneState.drained) = wrong

-- The state that `advance_remote` gives a lane when its current batch is answered.
unfoldable pub advanced : Option LaneState → Result SchedulerError LaneState
advanced none = unknown
advanced (some (LaneState.running current (some next) false)) =
    ok (LaneState.running next none false)
advanced (some (LaneState.running current none true)) = ok LaneState.stopped
advanced (some (LaneState.running current none false)) = ok LaneState.idle
advanced (some (LaneState.running current (some next) true)) = wrong
advanced (some LaneState.idle) = wrong
advanced (some LaneState.stopped) = wrong
advanced (some LaneState.drained) = wrong

-- The root never prefetches: any other running state is refused.
unfoldable pub root_current : LaneState → Result SchedulerError RunningMeta
root_current LaneState.idle = wrong
root_current (LaneState.running current none false) = ok current
root_current (LaneState.running current none true) = wrong
root_current (LaneState.running current (some next) stopping) = wrong
root_current LaneState.stopped = wrong
root_current LaneState.drained = wrong

-- `on_remote_drain` acknowledges a stopped lane only.
unfoldable pub drained_lane : Option LaneState → Result SchedulerError LaneState
drained_lane none = unknown
drained_lane (some LaneState.stopped) = ok LaneState.drained
drained_lane (some LaneState.idle) = wrong
drained_lane (some (LaneState.running current prefetched stopping)) = wrong
drained_lane (some LaneState.drained) = wrong
