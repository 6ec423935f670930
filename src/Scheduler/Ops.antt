-- ===== src/Scheduler/Ops.antt =====
-- src/scheduler.rs: the methods of `Coordinator`.
use hataori_rs.Prelude.{
  min, Bool, true, false, ◌||◌, Option, none, some, List, [], eqb, if◌then◌else◌, length, is_empty,
  take, drop, not,
}
use hataori_rs.Prelude.Int.{ℤ, int_key}
use hataori_rs.Prelude.Assoc.{lookup, insert}
use hataori_rs.Prelude.Action.{Action, ◌>>=◌, ◌>>◌, pure, fail, read, get, modify, expect}
use hataori_rs.Scheduler.State.{
  BatchId, Batch, ItemResult, Dispatch, task, stop, Lane, CompletionMeta, RunningMeta, LaneState,
  LaneStateKind, kind, Coordinator, SchedulerError,
}
use hataori_rs.Scheduler.Batches.{checked_increment, metadata, validate_completion, fill}
use hataori_rs.Scheduler.Lanes.{
  prefetch_request, mark_stopping, add_prefetched, remote_current, advanced, root_current,
  drained_lane,
}

module _ {T U : Type 0} where
  unfoldable pub make_batch : Action (Coordinator T U) SchedulerError (Option (Batch T))
  make_batch = do
    c ← get
    if c.failed || is_empty c.pending then pure none else do
      next_id ← read (λ _. checked_increment c.next_batch_id)
      let count = min c.batch_size (length c.pending)
      modify (λ s. record s { pending = drop count c.pending; next_batch_id = next_id })
      pure (some (record { id = c.next_batch_id; items = take count c.pending }))

  unfoldable pub set_remote : ℤ → LaneState → Action (Coordinator T U) SchedulerError (Unit {0})
  set_remote rank state = modify (λ c. record c { remotes = insert rank state c.remotes })

  unfoldable pub set_root : LaneState → Action (Coordinator T U) SchedulerError (Unit {0})
  set_root state = modify (λ c. record c { root = state })

  -- `on_remote_ready` with nothing left to hand out.
  unfoldable pub stop_remote : ℤ → Bool → Action (Coordinator T U) SchedulerError (Dispatch T)
  unfolding set_remote
  stop_remote rank true = do
    state ← read (λ c. mark_stopping (lookup rank c.remotes))
    set_remote rank state
    pure stop
  stop_remote rank false = do set_remote rank LaneState.stopped; pure stop

  -- `on_remote_ready` with work to hand out.
  unfoldable pub start_remote :
      ℤ → Bool → RunningMeta → Action (Coordinator T U) SchedulerError (Unit {0})
  unfolding set_remote
  start_remote rank true running = do
    state ← read (λ c. add_prefetched running (lookup rank c.remotes))
    set_remote rank state
  start_remote rank false running = set_remote rank (LaneState.running running none false)

  unfoldable pub on_remote_ready : ℤ → Action (Coordinator T U) SchedulerError (Dispatch T)
  unfolding make_batch stop_remote start_remote
  on_remote_ready rank = do
    request ← read (λ c. prefetch_request c.prefetch (lookup rank c.remotes))
    c ← get
    if c.failed || is_empty c.pending then stop_remote rank request else do
      made ← make_batch
      batch ← expect made
      start_remote rank request (metadata batch)
      pure (task batch)

  unfoldable pub start_root : Action (Coordinator T U) SchedulerError (Option (Batch T))
  unfolding make_batch set_root
  start_root = do
    c ← get
    if c.failed || is_empty c.pending then (do set_root LaneState.stopped; pure none) else do
      made ← make_batch
      batch ← expect made
      set_root (LaneState.running (metadata batch) none false)
      pure (some batch)

  -- A drained root does not occur; the code would start it like an idle one.
  unfoldable pub root_turn :
      LaneStateKind → Action (Coordinator T U) SchedulerError (Option (Batch T))
  root_turn LaneStateKind.running = fail SchedulerError.wrong_lane_state
  root_turn LaneStateKind.stopped = pure none
  root_turn LaneStateKind.idle = start_root
  root_turn LaneStateKind.drained = start_root

  unfoldable pub next_root_batch : Action (Coordinator T U) SchedulerError (Option (Batch T))
  unfolding root_turn start_root
  next_root_batch = do c ← get; root_turn (kind c.root)

  -- `if !self.failed { … }` behind both successes.
  unfoldable pub store : List (ItemResult U) → Action (Coordinator T U) SchedulerError (Unit {0})
  store results = do
    c ← get
    if c.failed then pure tt else do
      ordered ← read (λ s. fill results s.ordered)
      modify (λ s. record s { ordered = ordered })

  unfoldable pub on_root_success :
      BatchId → List (ItemResult U) → Action (Coordinator T U) SchedulerError CompletionMeta
  unfolding set_root store
  on_root_success batch_id results = do
    running ← read (λ c. root_current c.root)
    _ ← read (λ c. validate_completion c.ordered running batch_id results)
    set_root LaneState.idle
    store results
    pure (record { lane = Lane.root; batch_id = batch_id })

  unfoldable pub advance_remote : ℤ → Action (Coordinator T U) SchedulerError (Unit {0})
  unfolding set_remote
  advance_remote rank = do
    state ← read (λ c. advanced (lookup rank c.remotes))
    set_remote rank state

  unfoldable pub on_remote_success :
      ℤ → BatchId → List (ItemResult U) → Action (Coordinator T U) SchedulerError CompletionMeta
  unfolding advance_remote store
  on_remote_success rank batch_id results = do
    running ← read (λ c. remote_current (lookup rank c.remotes))
    _ ← read (λ c. validate_completion c.ordered running batch_id results)
    advance_remote rank
    store results
    pure (record { lane = Lane.remote rank; batch_id = batch_id })

  -- `self.failed = true; self.pending.clear()`.
  unfoldable pub fail_all : Action (Coordinator T U) SchedulerError (Unit {0})
  fail_all = modify (λ c. record c { failed = true; pending = [] })

  unfoldable pub on_root_error : BatchId → Action (Coordinator T U) SchedulerError CompletionMeta
  unfolding set_root fail_all
  on_root_error batch_id = do
    running ← read (λ c. root_current c.root)
    if not (eqb running.batch_id batch_id) then fail SchedulerError.batch_mismatch else do
      set_root LaneState.idle
      fail_all
      pure (record { lane = Lane.root; batch_id = batch_id })

  unfoldable pub on_remote_error :
      ℤ → BatchId → Action (Coordinator T U) SchedulerError CompletionMeta
  unfolding advance_remote fail_all
  on_remote_error rank batch_id = do
    running ← read (λ c. remote_current (lookup rank c.remotes))
    if not (eqb running.batch_id batch_id) then fail SchedulerError.batch_mismatch else do
      advance_remote rank
      fail_all
      pure (record { lane = Lane.remote rank; batch_id = batch_id })

  unfoldable pub on_remote_protocol_error :
      ℤ → Action (Coordinator T U) SchedulerError CompletionMeta
  unfolding advance_remote fail_all
  on_remote_protocol_error rank = do
    running ← read (λ c. remote_current (lookup rank c.remotes))
    advance_remote rank
    fail_all
    pure (record { lane = Lane.remote rank; batch_id = running.batch_id })

  unfoldable pub on_remote_drain : ℤ → Action (Coordinator T U) SchedulerError (Unit {0})
  unfolding set_remote
  on_remote_drain rank = do
    state ← read (λ c. drained_lane (lookup rank c.remotes))
    set_remote rank state
