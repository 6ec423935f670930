-- ===== src/Scheduler/Completion.antt =====
-- src/scheduler.rs: what `validate_completion` accepts, and what storing accepted results does.
use hataori_rs.Prelude.{
  ℕ, zero, suc, ◌+◌, ◌≤◌, ◌<◌, ◌≡◌, refl, Option, none, some, List, [], ◌∷◌, ◌++◌, arith, length,
  get_elem?, set, drop, count, ok, panic, length-set, count-append, length-map, length-append,
  append_assoc, ◌↔◌, ◌≢◌,
}
use hataori_rs.Scheduler.State.{ItemResult, RunningMeta, BatchId}
use hataori_rs.Scheduler.Batches.{check_result, check_results, validate_completion, fill}
use hataori_rs.Scheduler.Places.{below, filled, filled-set, result_indices, member-count}

get_elem?-prefix :
    (front : List ℕ) (x : ℕ) (back : List ℕ) → get_elem? (front ++ x ∷ back) (length front) ≡ some x
get_elem?-prefix [] x back = refl
get_elem?-prefix (y ∷ front) x back = get_elem?-prefix front x back

drop-all : (xs : List ℕ) (n : ℕ) → length xs ≤ n → drop n xs ≡ []
drop-all [] zero h = refl
drop-all [] (suc n) h = refl
drop-all (x ∷ xs) zero h = absurd (omega arith)
drop-all (x ∷ xs) (suc n) h = drop-all xs n (omega arith)

drop-get_elem? : (xs : List ℕ) (n x : ℕ) → get_elem? xs n ≡ some x → drop n xs ≡ x ∷ drop (n + 1) xs
drop-get_elem? [] n x h = cc
drop-get_elem? (y ∷ xs) zero x h = ground arith
drop-get_elem? (y ∷ xs) (suc n) x h = ground (arith, drop-get_elem? xs n x)

get_elem?-in_range : (xs : List ℕ) (n : ℕ) → n < length xs → get_elem? xs n ≢ none
get_elem?-in_range [] n h = absurd (omega arith)
get_elem?-in_range (x ∷ xs) zero h = λ e. cc
get_elem?-in_range (x ∷ xs) (suc n) h = get_elem?-in_range xs n (omega arith)

module _ {U : Type 0} where
  -- Indices that are in range, unfilled and distinct are stored, each in its slot.
  pub fill_lem :
      (results : List (ItemResult U)) (ordered : List (Option U))
      → ((i : ℕ) → count i (result_indices results) + filled i ordered ≤ below (length ordered) i)
      → (ordered' : List (Option U)) × (fill results ordered ≡ ok ordered')
        × (length ordered' ≡ length ordered)
        × ((i : ℕ) → filled i ordered' ≡ filled i ordered + count i (result_indices results))
  unfolding fill
  fill_lem [] ordered h = (ordered, refl, refl, λ i. omega arith)
  fill_lem (r ∷ results) ordered h =
      let index = r.original_index in
      let ordered₁ = set ordered index (some r.value) in
      let inside : index < length ordered = ground (arith, h index) in
      let (ordered', done, size, slots) = fill_lem results ordered₁ (λ i. ground (
        arith,
        h i,
        filled-set i index r.value ordered,
        length-set ordered index (some r.value),
      )) in
      (
        ordered',
        ground arith,
        ground (arith, length-set ordered index (some r.value)),
        λ i. ground (arith, h i, slots i, filled-set i index r.value ordered),
      )

  -- The loop passes over a batch's own indices.
  check_results-ok :
      (front seen : List ℕ) (results : List (ItemResult U)) (ordered : List (Option U))
      → ((i : ℕ)
          → count i (front ++ result_indices results) + filled i ordered ≤ below (length ordered) i)
      → ((i : ℕ) → count i seen ≤ count i front)
      → check_results (front ++ result_indices results) ordered (length front) seen results ≡ ok tt
  unfolding check_results check_result
  check_results-ok front seen [] ordered h sub = refl
  check_results-ok front seen (r ∷ results) ordered h sub =
      let index = r.original_index in
      let rest = result_indices results in
      ground (
        arith,
        h index,
        sub index,
        member-count index seen,
        count-append index front (index ∷ rest),
        get_elem?-prefix front index rest,
        append_assoc front (index ∷ []) rest,
        length-append front (index ∷ []),
        check_results-ok (front ++ index ∷ []) (index ∷ seen) results ordered
            (λ i. ground (arith, h i, append_assoc front (index ∷ []) rest))
            (λ i. ground (arith, sub i, count-append i front (index ∷ []))),
      )

  -- A passed loop has met the batch's indices, in order.
  check_results-indices :
      (indices seen : List ℕ) (ordered : List (Option U)) (position : ℕ)
      (results : List (ItemResult U))
      → check_results indices ordered position seen results ≡ ok tt
      → length indices ≡ position + length results
      → drop position indices ≡ result_indices results
  unfolding check_results check_result
  check_results-indices indices seen ordered position [] h size =
      drop-all indices position (omega arith)
  check_results-indices indices seen ordered position (r ∷ results) h size = ground (
    arith,
    drop-get_elem? indices position r.original_index,
    check_results-indices indices (r.original_index ∷ seen) ordered (position + 1) results,
  )

  -- A batch's results are accepted exactly when they carry its id and its indices in its order.
  pub validate_completion-ok :
      (ordered : List (Option U)) (running : RunningMeta) (batch_id : BatchId)
      (results : List (ItemResult U))
      → ((i : ℕ) → count i running.original_indices + filled i ordered ≤ below (length ordered) i)
      → (validate_completion ordered running batch_id results ≡ ok tt)
        ↔ ((running.batch_id ≡ batch_id) × (running.original_indices ≡ result_indices results))
  unfolding validate_completion
  validate_completion-ok ordered running batch_id results h = (
    λ passed. ground (arith, check_results-indices running.original_indices [] ordered 0 results),
    λ (same_id, same). ground (
      arith,
      length-map (λ (r : ItemResult U). r.original_index) results,
      check_results-ok [] [] results ordered (λ i. ground (arith, h i)) (λ i. omega arith),
    ),
  )

  check_results-ne-panic :
      (indices seen : List ℕ) (ordered : List (Option U)) (position : ℕ)
      (results : List (ItemResult U))
      → position + length results ≤ length indices
      → check_results indices ordered position seen results ≢ panic
  unfolding check_results check_result
  check_results-ne-panic indices seen ordered position [] h e = cc
  check_results-ne-panic indices seen ordered position (r ∷ results) h e = ground (
    arith,
    get_elem?-in_range indices position,
    check_results-ne-panic indices (r.original_index ∷ seen) ordered (position + 1) results,
  )

  -- `metadata.original_indices[position]` is always in range.
  pub validate_completion-ne-panic :
      (ordered : List (Option U)) (running : RunningMeta) (batch_id : BatchId)
      (results : List (ItemResult U))
      → validate_completion ordered running batch_id results ≢ panic
  unfolding validate_completion
  validate_completion-ne-panic ordered running batch_id results e =
      ground (arith, check_results-ne-panic running.original_indices [] ordered 0 results)
