-- ===== src/Scheduler/Accepting.antt =====
-- src/scheduler.rs: exactly which answers of a running lane are accepted.
use hataori_rs.Prelude.{
  ◌≡◌, ◌↔◌, refl, Bool, false, Option, none, some, List, arith, inl, inr, ok, Result-cases, subst,
  ap,
}
use hataori_rs.Prelude.Int.{ℤ, int_key}
use hataori_rs.Prelude.Assoc.{lookup, insert}
use hataori_rs.Scheduler.State.{RunningMeta, LaneState, Lane, Coordinator, BatchId, ItemResult}
use hataori_rs.Scheduler.Batches.{validate_completion}
use hataori_rs.Scheduler.Lanes.{remote_current, root_current}
use hataori_rs.Scheduler.Ops.{on_root_success, on_remote_success}
use hataori_rs.Scheduler.Places.{result_indices}
use hataori_rs.Scheduler.Completion.{validate_completion-ok, validate_completion-ne-panic}
use hataori_rs.Scheduler.Invariant.{Inv}
use hataori_rs.Scheduler.Answering.{Answered, store_lem, root-Answered}
use hataori_rs.Scheduler.Answers.{root_indices, remote_indices, remote_advance}

module _ {T U : Type 0} (c : Coordinator T U) (v : Inv c) where
  -- The answer names the batch and lists its indices in order.
  abbrev pub Matches : RunningMeta → BatchId → List (ItemResult U) → Type 0
  Matches current batch_id results =
      (current.batch_id ≡ batch_id) × (current.original_indices ≡ result_indices results)

  -- A running lane's success is accepted exactly when it names the lane's current batch and lists
  -- that batch's indices in the batch's order; no result is then refused as out of bounds,
  -- repeated or already filled.
  pub on_remote_success-accepts :
      (rank : ℤ) (current : RunningMeta) (prefetched : Option RunningMeta) (stopping : Bool)
      (batch_id : BatchId) (results : List (ItemResult U))
      → lookup rank c.remotes ≡ some (LaneState.running current prefetched stopping)
      → ((on_remote_success rank batch_id results c).0
          ≡ ok (record { lane = Lane.remote rank; batch_id = batch_id }))
        ↔ Matches current batch_id results
  unfolding on_remote_success remote_current
  on_remote_success-accepts rank current prefetched stopping batch_id results e =
      let valid =
        validate_completion-ok c.ordered current batch_id results
          (remote_indices c v rank current prefetched stopping e) in
      let (new, to, answered) = remote_advance c v rank current prefetched stopping e in
      let c' : Coordinator T U = record c { remotes = insert rank new c.remotes } in
      (
        λ accepted. elim (Result-cases (validate_completion c.ordered current batch_id results)) [
          | inl (_, passed) ↦ valid.0 passed
          | inr (inl (x, refused)) ↦ ground arith
          | inr (inr bad) ↦
              absurd (validate_completion-ne-panic c.ordered current batch_id results bad)
        ],
        λ m.
            let (s, stored, inv) =
              store_lem results c' (subst (λ xs. Answered xs c') m.1 answered) in
            rw (remote_current-running e, valid.1 m, to, stored) refl,
      )
    where
      remote_current-running :
          lookup rank c.remotes ≡ some (LaneState.running current prefetched stopping)
          → remote_current (lookup rank c.remotes) ≡ ok current
      remote_current-running q = rw (q, remote_current)

  -- The same of the root's success.
  pub on_root_success-accepts :
      (current : RunningMeta) (batch_id : BatchId) (results : List (ItemResult U))
      → c.root ≡ LaneState.running current none false
      → ((on_root_success batch_id results c).0
          ≡ ok (record { lane = Lane.root; batch_id = batch_id }))
        ↔ Matches current batch_id results
  unfolding on_root_success
  on_root_success-accepts current batch_id results e =
      let valid =
        validate_completion-ok c.ordered current batch_id results (root_indices c v current e) in
      let c' : Coordinator T U = record c { root = LaneState.idle } in
      (
        λ accepted. elim (Result-cases (validate_completion c.ordered current batch_id results)) [
          | inl (_, passed) ↦ valid.0 passed
          | inr (inl (x, refused)) ↦ ground (arith, running)
          | inr (inr bad) ↦
              absurd (validate_completion-ne-panic c.ordered current batch_id results bad)
        ],
        λ m.
            let (s, stored, inv) =
              store_lem results c'
                (subst (λ xs. Answered xs c') m.1 (root-Answered c current v e)) in
            rw (running, valid.1 m, stored) refl,
      )
    where
      running : root_current c.root ≡ ok current
      running = unfold root_current in ap root_current e
