-- ===== src/Scheduler/Calls.antt =====
-- src/scheduler.rs: a run of the coordinator as a sequence of calls, and its safety.
use hataori_rs.Prelude.{subst, sym, List, [], ◌∷◌, Result, ok, err, panic}
use hataori_rs.Prelude.Int.{ℤ}
use hataori_rs.Prelude.Action.{Action, ◌>>=◌, pure, continue}
use hataori_rs.Scheduler.State.{ItemResult, BatchId, Coordinator, SchedulerError}
use hataori_rs.Scheduler.Ops.{
  next_root_batch, on_remote_ready, on_root_success, on_remote_success, on_root_error,
  on_remote_error, on_remote_protocol_error, on_remote_drain,
}
use hataori_rs.Scheduler.Invariant.{Inv, Safe}
use hataori_rs.Scheduler.Handing.{next_root_batch-Safe}
use hataori_rs.Scheduler.Remotes.{on_remote_ready-Safe, on_remote_drain-Safe}
use hataori_rs.Scheduler.Answers.{
  on_root_success-Safe, on_remote_success-Safe, on_root_error-Safe, on_remote_error-Safe,
  on_remote_protocol_error-Safe,
}

-- The calls that change a coordinator; its owner makes them one at a time.
pub data Call (U : Type 0) : Type 0 where
  root_batch : Call U
  remote_ready : ℤ → Call U
  root_success : BatchId → List (ItemResult U) → Call U
  remote_success : ℤ → BatchId → List (ItemResult U) → Call U
  root_error : BatchId → Call U
  remote_error : ℤ → BatchId → Call U
  remote_protocol_error : ℤ → Call U
  remote_drain : ℤ → Call U

module _ {T U : Type 0} where
  abbrev done :
      {A : Type 0}
      → Action (Coordinator T U) SchedulerError A
      → Action (Coordinator T U) SchedulerError (Unit {0})
  done m = m >>= λ _. pure tt

  -- A call, its answer set aside.
  unfoldable pub perform : Call U → Action (Coordinator T U) SchedulerError (Unit {0})
  perform root_batch = done next_root_batch
  perform (remote_ready rank) = done (on_remote_ready rank)
  perform (root_success id results) = done (on_root_success id results)
  perform (remote_success rank id results) = done (on_remote_success rank id results)
  perform (root_error id) = done (on_root_error id)
  perform (remote_error rank id) = done (on_remote_error rank id)
  perform (remote_protocol_error rank) = done (on_remote_protocol_error rank)
  perform (remote_drain rank) = done (on_remote_drain rank)

  -- The coordinator after a sequence of calls.
  unfoldable pub run : List (Call U) → Coordinator T U → Coordinator T U
  run [] c = c
  run (call ∷ calls) c = run calls (perform call c).1

  done-Safe :
      {A : Type 0} (c : Coordinator T U) (r : Result SchedulerError A) (s : Coordinator T U)
      → Safe c (λ _ t. Inv t) (r, s)
      → Safe c (λ _ t. Inv t) (continue (λ _. pure tt) r s)
  done-Safe c (ok a) s h = h
  done-Safe c (err e) s h = h
  done-Safe c panic s h = h

  -- Whatever call is made on a well-formed coordinator, with whatever rank, batch id and results:
  -- it does not panic, an error leaves the coordinator as it was, and a success leaves it
  -- well-formed.
  pub perform-Safe :
      (c : Coordinator T U) (call : Call U) → Inv c → Safe c (λ _ s. Inv s) (perform call c)
  unfolding perform
  perform-Safe c root_batch v = done-Safe c _ _ (next_root_batch-Safe c v)
  perform-Safe c (remote_ready rank) v = done-Safe c _ _ (on_remote_ready-Safe c rank v)
  perform-Safe c (root_success id results) v = done-Safe c _ _ (on_root_success-Safe c v id results)
  perform-Safe c (remote_success rank id results) v =
      done-Safe c _ _ (on_remote_success-Safe c v rank id results)
  perform-Safe c (root_error id) v = done-Safe c _ _ (on_root_error-Safe c v id)
  perform-Safe c (remote_error rank id) v = done-Safe c _ _ (on_remote_error-Safe c v rank id)
  perform-Safe c (remote_protocol_error rank) v =
      done-Safe c _ _ (on_remote_protocol_error-Safe c v rank)
  perform-Safe c (remote_drain rank) v = done-Safe c _ _ (on_remote_drain-Safe c rank v)

  Safe-Inv :
      {A : Type 0} (c : Coordinator T U) (r : Result SchedulerError A) (s : Coordinator T U)
      → Inv c
      → Safe c (λ _ t. Inv t) (r, s)
      → Inv s
  Safe-Inv c (ok a) s v h = h
  Safe-Inv c (err e) s v h = subst Inv (sym h) v
  Safe-Inv c panic s v h = absurd h

  -- No sequence of calls breaks the invariant.
  pub run-Inv : (c : Coordinator T U) (calls : List (Call U)) → Inv c → Inv (run calls c)
  unfolding run
  run-Inv c [] v = v
  run-Inv c (call ∷ calls) v =
      run-Inv (perform call c).1 calls (Safe-Inv c (perform call c).0 _ v (perform-Safe c call v))
