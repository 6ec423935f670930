-- ===== src/Scheduler/Ends.antt =====
-- src/scheduler.rs: how a coordinator is made, when it is done, and what it returns.
use hataori_rs.Prelude.{
  ℕ, ◌+◌, ◌^◌, Bool, true, false, ◌&&◌, Option, none, some, List, [], ◌∷◌, Result, ok, err, ltb,
  eqb, if◌then◌else◌, length, is_empty, replicate, not,
}
use hataori_rs.Prelude.Int.{ℤ, is_negative, int_beq, int_key}
use hataori_rs.Prelude.Assoc.{lookup, insert, total}
use hataori_rs.Prelude.Fallible.{◌>>=◌, ◌>>◌, ensure}
use hataori_rs.Scheduler.State.{ScheduledItem, LaneState, Coordinator, SchedulerError}

-- The loop over `remote_ranks`: negative ranks, the root and repeated ranks are refused.
unfoldable pub add_remotes :
    ℤ → List ℤ → List (ℤ × LaneState) → Result SchedulerError (List (ℤ × LaneState))
add_remotes root_rank [] remotes = ok remotes
add_remotes root_rank (rank ∷ ranks) remotes =
    let rest = add_remotes root_rank ranks (insert rank LaneState.idle remotes) in
    if is_negative rank
    then err SchedulerError.invalid_remote
    else if int_beq rank root_rank
    then err SchedulerError.root_in_remotes
    else elim (lookup rank remotes) [
      | some state ↦ err SchedulerError.duplicate_remote
      | none ↦ rest
    ]

-- The items with their positions; `u64::try_from(index)` is the test.
unfoldable pub enqueue : {T : Type 0} → ℕ → List T → Result SchedulerError (List (ScheduledItem T))
enqueue index [] = ok []
enqueue index (value ∷ items) =
    let rest = enqueue (index + 1) items in
    if ltb index (2 ^ 64)
    then (rest >>= λ queue. ok (record { original_index = index; value = value } ∷ queue))
    else err SchedulerError.index_overflow

abbrev pub is_running : LaneState → Bool
is_running (LaneState.running current prefetched stopping) = true
is_running LaneState.idle = false
is_running LaneState.stopped = false
is_running LaneState.drained = false

abbrev pub is_stopped : LaneState → Bool
is_stopped LaneState.stopped = true
is_stopped LaneState.idle = false
is_stopped (LaneState.running current prefetched stopping) = false
is_stopped LaneState.drained = false

abbrev pub is_drained : LaneState → Bool
is_drained LaneState.drained = true
is_drained LaneState.idle = false
is_drained (LaneState.running current prefetched stopping) = false
is_drained LaneState.stopped = false

abbrev pub running_weight : LaneState → ℕ
running_weight state = if is_running state then 1 else 0

unfoldable pub all_drained : List (ℤ × LaneState) → Bool
all_drained [] = true
all_drained ((rank, state) ∷ remotes) = is_drained state && all_drained remotes

-- The collection of `ordered` into a `Vec`, which stops at the first empty slot.
unfoldable pub collect : {U : Type 0} → List (Option U) → Result SchedulerError (List U)
collect [] = ok []
collect (none ∷ slots) = err SchedulerError.missing_result
collect (some value ∷ slots) = collect slots >>= λ values. ok (value ∷ values)

module _ {T U : Type 0} where
  unfoldable pub new_with_prefetch :
      ℤ → List ℤ → List T → ℕ → Bool → Result SchedulerError (Coordinator T U)
  unfolding add_remotes enqueue
  new_with_prefetch root_rank remote_ranks items batch_size prefetch = do
    ensure (not (is_negative root_rank)) SchedulerError.invalid_root
    remotes ← add_remotes root_rank remote_ranks []
    pending ← enqueue 0 items
    ok (record {
      pending = pending;
      ordered = replicate (length pending) none;
      batch_size = batch_size;
      next_batch_id = 0;
      root = LaneState.idle;
      remotes = remotes;
      prefetch = prefetch;
      failed = false;
    })

  unfoldable pub running_count : Coordinator T U → ℕ
  running_count c = running_weight c.root + total running_weight c.remotes

  unfoldable pub is_quiescent : Coordinator T U → Bool
  unfolding running_count
  is_quiescent c = is_empty c.pending && eqb (running_count c) 0

  unfoldable pub is_finished : Coordinator T U → Bool
  unfolding running_count all_drained
  is_finished c = is_stopped c.root && (all_drained c.remotes && eqb (running_count c) 0)

  unfoldable pub into_results : Coordinator T U → Result SchedulerError (List U)
  unfolding is_finished collect
  into_results c =
      if c.failed
      then err SchedulerError.failed
      else if not (is_finished c)
      then err SchedulerError.not_finished
      else collect c.ordered
