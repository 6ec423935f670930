-- ===== src/Scheduler/Answers.antt =====
-- src/scheduler.rs: every answer of a lane ends well.
use hataori_rs.Prelude.{
  ℕ, ◌+◌, ◌≤◌, ◌≡◌, refl, Bool, true, false, Option, none, some, List, inl, inr, arith, eqb, length,
  count, ok, err, ◌⊎◌, Bool-cases, subst, Result-cases,
}
use hataori_rs.Prelude.Int.{ℤ, int_key}
use hataori_rs.Prelude.Assoc.{lookup, insert, total-insert, AllValues-lookup, AtValue}
use hataori_rs.Scheduler.State.{
  RunningMeta, LaneState, Coordinator, SchedulerError, BatchId, ItemResult,
}
use hataori_rs.Scheduler.Batches.{validate_completion}
use hataori_rs.Scheduler.Lanes.{remote_current, advanced, root_current}
use hataori_rs.Scheduler.Ops.{
  on_root_success, on_remote_success, on_root_error, on_remote_error, on_remote_protocol_error,
}
use hataori_rs.Scheduler.Places.{below, held, filled}
use hataori_rs.Scheduler.Completion.{validate_completion-ok, validate_completion-ne-panic}
use hataori_rs.Scheduler.Invariant.{Inv, Safe, RemoteShape}
use hataori_rs.Scheduler.Answering.{
  Answered, advanced_lem, store_lem, remote-Answered, root-Answered, failed_all,
}

pub root_cases :
    (state : LaneState)
    → (root_current state ≡ err SchedulerError.wrong_lane_state)
      ⊎ ((current : RunningMeta) × (state ≡ LaneState.running current none false)
          × (root_current state ≡ ok current))
unfolding root_current
root_cases LaneState.idle = inl refl
root_cases (LaneState.running current none false) = inr (current, refl, refl)
root_cases (LaneState.running current none true) = inl refl
root_cases (LaneState.running current (some next) stopping) = inl refl
root_cases LaneState.stopped = inl refl
root_cases LaneState.drained = inl refl

pub remote_cases :
    (o : Option LaneState)
    → ((e : SchedulerError) × (remote_current o ≡ err e))
      ⊎ ((current : RunningMeta) × (prefetched : Option RunningMeta) × (stopping : Bool) × (o
            ≡ some (LaneState.running current prefetched stopping))
          × (remote_current o ≡ ok current))
unfolding remote_current
remote_cases none = inl (SchedulerError.unknown_rank, refl)
remote_cases (some LaneState.idle) = inl (SchedulerError.wrong_lane_state, refl)
remote_cases (some (LaneState.running current prefetched stopping)) =
    inr (current, prefetched, stopping, refl, refl)
remote_cases (some LaneState.stopped) = inl (SchedulerError.wrong_lane_state, refl)
remote_cases (some LaneState.drained) = inl (SchedulerError.wrong_lane_state, refl)

module _ {T U : Type 0} (c : Coordinator T U) (v : Inv c) where
  pub root_indices :
      (current : RunningMeta)
      → c.root ≡ LaneState.running current none false
      → (i : ℕ) → count i current.original_indices + filled i c.ordered ≤ below (length c.ordered) i
  root_indices current e i = ground (arith, v.once i)

  pub remote_indices :
      (rank : ℤ) (current : RunningMeta) (prefetched : Option RunningMeta) (stopping : Bool)
      → lookup rank c.remotes ≡ some (LaneState.running current prefetched stopping)
      → (i : ℕ) → count i current.original_indices + filled i c.ordered ≤ below (length c.ordered) i
  remote_indices rank current prefetched stopping e i =
      ground (arith, v.once i, total-insert (held i) rank LaneState.idle c.remotes)

  -- The lane's advance, found by `advance_remote`.
  pub remote_advance :
      (rank : ℤ) (current : RunningMeta) (prefetched : Option RunningMeta) (stopping : Bool)
      → lookup rank c.remotes ≡ some (LaneState.running current prefetched stopping)
      → (new : LaneState) × (advanced (lookup rank c.remotes) ≡ ok new)
        × Answered current.original_indices (record c { remotes = insert rank new c.remotes })
  remote_advance rank current prefetched stopping e =
      let shape = AllValues-lookup (RemoteShape c.prefetch) rank c.remotes v.remote_shapes in
      let (new, to, less, named_less, keeps) =
        advanced_lem c.prefetch current prefetched stopping
          (subst (AtValue (RemoteShape c.prefetch)) e shape) in
      (new, rw e to, remote-Answered c rank current _ new v e less named_less keeps)

  pub on_root_success-Safe :
      (batch_id : BatchId) (results : List (ItemResult U))
      → Safe c (λ _ s. Inv s) (on_root_success batch_id results c)
  unfolding on_root_success
  on_root_success-Safe batch_id results = elim (root_cases c.root) [
    | inl q ↦ rw q
    | inr (current, e, q) ↦
        elim (Result-cases (validate_completion c.ordered current batch_id results)) [
          | inl (_, passed) ↦
              let (_, same) =
                (validate_completion-ok c.ordered current batch_id results
                    (root_indices current e)).0
                  passed in
              let c' : Coordinator T U = record c { root = LaneState.idle } in
              let (s, done, inv) =
                store_lem results c'
                  (subst (λ xs. Answered xs c') same (root-Answered c current v e)) in
              rw (q, passed, done) inv
          | inr (inl (x, refused)) ↦ rw (q, refused)
          | inr (inr bad) ↦
              absurd (validate_completion-ne-panic c.ordered current batch_id results bad)
        ]
  ]

  pub on_remote_success-Safe :
      (rank : ℤ) (batch_id : BatchId) (results : List (ItemResult U))
      → Safe c (λ _ s. Inv s) (on_remote_success rank batch_id results c)
  unfolding on_remote_success
  on_remote_success-Safe rank batch_id results = elim (remote_cases (lookup rank c.remotes)) [
    | inl (x, q) ↦ rw q
    | inr (current, prefetched, stopping, e, q) ↦
        elim (Result-cases (validate_completion c.ordered current batch_id results)) [
          | inl (_, passed) ↦
              let (_, same) =
                (validate_completion-ok c.ordered current batch_id results
                    (remote_indices rank current prefetched stopping e)).0
                  passed in
              let (new, to, answered) = remote_advance rank current prefetched stopping e in
              let c' : Coordinator T U = record c { remotes = insert rank new c.remotes } in
              let (s, done, inv) =
                store_lem results c' (subst (λ xs. Answered xs c') same answered) in
              rw (q, passed, to, done) inv
          | inr (inl (x, refused)) ↦ rw (q, refused)
          | inr (inr bad) ↦
              absurd (validate_completion-ne-panic c.ordered current batch_id results bad)
        ]
  ]

  pub on_root_error-Safe : (batch_id : BatchId) → Safe c (λ _ s. Inv s) (on_root_error batch_id c)
  unfolding on_root_error
  on_root_error-Safe batch_id = elim (root_cases c.root) [
    | inl q ↦ rw q
    | inr (current, e, q) ↦ elim (Bool-cases (eqb current.batch_id batch_id)) [
      | inl same ↦ rw (q, same) (failed_all _ _ (root-Answered c current v e))
      | inr other ↦ rw (q, other)
    ]
  ]

  pub on_remote_error-Safe :
      (rank : ℤ) (batch_id : BatchId) → Safe c (λ _ s. Inv s) (on_remote_error rank batch_id c)
  unfolding on_remote_error
  on_remote_error-Safe rank batch_id = elim (remote_cases (lookup rank c.remotes)) [
    | inl (x, q) ↦ rw q
    | inr (current, prefetched, stopping, e, q) ↦
        let (new, to, answered) = remote_advance rank current prefetched stopping e in
        elim (Bool-cases (eqb current.batch_id batch_id)) [
          | inl same ↦ rw (q, same, to) (failed_all _ _ answered)
          | inr other ↦ rw (q, other)
        ]
  ]

  pub on_remote_protocol_error-Safe :
      (rank : ℤ) → Safe c (λ _ s. Inv s) (on_remote_protocol_error rank c)
  unfolding on_remote_protocol_error
  on_remote_protocol_error-Safe rank = elim (remote_cases (lookup rank c.remotes)) [
    | inl (x, q) ↦ rw q
    | inr (current, prefetched, stopping, e, q) ↦
        let (new, to, answered) = remote_advance rank current prefetched stopping e in
        rw (q, to) (failed_all _ _ answered)
  ]
