-- ===== src/Scheduler/State.antt =====
-- src/scheduler.rs: the coordinator's data. A rank is an `i32`, a batch id a `u64`, an index a
-- `usize` of 64 bits; `BTreeMap` is an association list and `VecDeque` a list, front first.
use hataori_rs.Prelude.{ℕ, Bool, List, Option}
use hataori_rs.Prelude.Int.{ℤ}

abbrev pub BatchId : Type 0
BatchId = ℕ

pub record ScheduledItem (T : Type 0) : Type 0 where
  pub original_index : ℕ
  pub value : T

pub record Batch (T : Type 0) : Type 0 where
  pub id : BatchId
  pub items : List (ScheduledItem T)

pub record ItemResult (U : Type 0) : Type 0 where
  pub original_index : ℕ
  pub value : U

pub data Dispatch (T : Type 0) : Type 0 where
  task : Batch T → Dispatch T
  stop : Dispatch T

pub data Lane : Type 0 where
  root : Lane
  remote : ℤ → Lane

pub record CompletionMeta : Type 0 where
  pub lane : Lane
  pub batch_id : BatchId

pub data LaneStateKind : Type 0 where
  idle running stopped drained : LaneStateKind

pub record RunningMeta : Type 0 where
  pub batch_id : BatchId
  pub original_indices : List ℕ

-- `running current prefetched stopping`.
pub data LaneState : Type 0 where
  idle : LaneState
  running : RunningMeta → Option RunningMeta → Bool → LaneState
  stopped : LaneState
  drained : LaneState

abbrev pub kind : LaneState → LaneStateKind
kind LaneState.idle = LaneStateKind.idle
kind (LaneState.running current prefetched stopping) = LaneStateKind.running
kind LaneState.stopped = LaneStateKind.stopped
kind LaneState.drained = LaneStateKind.drained

pub data SchedulerError : Type 0 where
  invalid_root invalid_remote duplicate_remote root_in_remotes unknown_rank : SchedulerError
  wrong_lane_state batch_id_overflow batch_mismatch result_count index_sequence : SchedulerError
  index_out_of_bounds already_filled duplicate_result_index index_overflow : SchedulerError
  not_finished failed missing_result : SchedulerError

pub record Coordinator (T U : Type 0) : Type 0 where
  pub pending : List (ScheduledItem T)
  pub ordered : List (Option U)
  pub batch_size : ℕ
  pub next_batch_id : BatchId
  pub root : LaneState
  pub remotes : List (ℤ × LaneState)
  pub prefetch : Bool
  pub failed : Bool
