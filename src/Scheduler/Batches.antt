-- ===== src/Scheduler/Batches.antt =====
-- src/scheduler.rs: cutting batches from the queue, and checking and storing their results.
use hataori_rs.Prelude.{
  ℕ, ◌+◌, ◌^◌, Bool, true, false, not, ◌||◌, Option, none, some, List, [], ◌∷◌, map, Result, ok,
  err, panic, ltb, eqb, if◌then◌else◌, length, get_elem?, set,
}
use hataori_rs.Prelude.Fallible.{◌>>=◌}
use hataori_rs.Scheduler.State.{
  BatchId, ScheduledItem, Batch, ItemResult, RunningMeta, SchedulerError,
}

-- `u64::checked_add`.
abbrev pub checked_increment : BatchId → Result SchedulerError BatchId
checked_increment id =
    if ltb (id + 1) (2 ^ 64) then ok (id + 1) else err SchedulerError.batch_id_overflow

abbrev pub slot_filled {ℓ} : {U : Type ℓ} → Option (Option U) → Bool
slot_filled none = false
slot_filled (some none) = false
slot_filled (some (some u)) = true

-- Membership in the `HashSet` of the indices seen so far.
abbrev pub member : ℕ → List ℕ → Bool
member i [] = false
member i (x ∷ xs) = eqb x i || member i xs

module _ {T : Type 0} where
  abbrev pub indices_of : List (ScheduledItem T) → List ℕ
  indices_of items = map (λ item. item.original_index) items

  abbrev pub metadata : Batch T → RunningMeta
  metadata batch = record { batch_id = batch.id; original_indices = indices_of batch.items }

module _ {U : Type 0} where
  -- One result of the loop of `validate_completion`: its index, against the batch's index at the
  -- same position.
  unfoldable pub check_result :
      List ℕ → List (Option U) → ℕ → List ℕ → ItemResult U → Result SchedulerError (Unit {0})
  check_result indices ordered position seen result =
      let index = result.original_index in
      if not (ltb index (length ordered))
      then err SchedulerError.index_out_of_bounds
      else if member index seen
      then err SchedulerError.duplicate_result_index
      else elim (get_elem? indices position) [
        | none ↦ panic
        | some expected ↦
            if not (eqb expected index)
            then err SchedulerError.index_sequence
            else if slot_filled (get_elem? ordered index)
            then err SchedulerError.already_filled
            else ok tt
      ]

  unfoldable pub check_results :
      List ℕ → List (Option U) → ℕ → List ℕ → List (ItemResult U) → Result SchedulerError (Unit {0})
  check_results indices ordered position seen [] = ok tt
  check_results indices ordered position seen (result ∷ results) =
      check_result indices ordered position seen result >>= λ _.
      check_results indices ordered (position + 1) (result.original_index ∷ seen) results

  -- `validate_completion`.
  unfoldable pub validate_completion :
      List (Option U)
      → RunningMeta
      → BatchId
      → List (ItemResult U)
      → Result SchedulerError (Unit {0})
  validate_completion ordered running batch_id results =
      if not (eqb running.batch_id batch_id)
      then err SchedulerError.batch_mismatch
      else if not (eqb (length running.original_indices) (length results))
      then err SchedulerError.result_count
      else check_results running.original_indices ordered 0 [] results

  -- `for result in results { self.ordered[original_index] = Some(..) }`: an index out of bounds
  -- panics.
  unfoldable pub fill :
      List (ItemResult U) → List (Option U) → Result SchedulerError (List (Option U))
  fill [] ordered = ok ordered
  fill (result ∷ results) ordered =
      let rest = fill results (set ordered result.original_index (some result.value)) in
      if ltb result.original_index (length ordered) then rest else panic
