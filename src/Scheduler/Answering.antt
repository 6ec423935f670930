-- ===== src/Scheduler/Answering.antt =====
-- src/scheduler.rs: answers from the lanes keep the invariant.
use hataori_rs.Prelude.{
  ℕ, ◌+◌, ◌≤◌, ◌<◌, ◌^◌, ◌≡◌, refl, Bool, true, false, Option, none, some, List, [], inl, inr,
  arith, length, count, ok, Bool-cases,
}
use hataori_rs.Prelude.Int.{ℤ, int_key}
use hataori_rs.Prelude.Assoc.{AllValues, lookup, insert, total-insert, AllValues-insert}
use hataori_rs.Scheduler.State.{RunningMeta, LaneState, Coordinator, ItemResult}
use hataori_rs.Scheduler.Lanes.{advanced}
use hataori_rs.Scheduler.Ops.{store}
use hataori_rs.Scheduler.Ends.{is_stopped}
use hataori_rs.Scheduler.Places.{below, held, named, filled, result_indices}
use hataori_rs.Scheduler.Completion.{fill_lem}
use hataori_rs.Scheduler.Invariant.{Inv, RemoteShape, RootShape, place, outstanding_ids}

-- What an answered lane's state becomes: the answered batch leaves it, the rest stays.
pub advanced_lem :
    (prefetch : Bool) (current : RunningMeta) (prefetched : Option RunningMeta) (stopping : Bool)
    → RemoteShape prefetch (LaneState.running current prefetched stopping)
    → (new : LaneState) × (advanced (some (LaneState.running current prefetched stopping)) ≡ ok new)
      × ((i : ℕ)
          → held i (LaneState.running current prefetched stopping)
            ≡ count i current.original_indices + held i new)
      × ((j : ℕ) → named j new ≤ named j (LaneState.running current prefetched stopping))
      × RemoteShape prefetch new
unfolding advanced
advanced_lem prefetch current (some next) false h =
    (LaneState.running next none false, refl, λ i. omega arith, λ j. omega arith, tt)
advanced_lem prefetch current (some next) true h = cc (h.1)
advanced_lem prefetch current none true h =
    (LaneState.stopped, refl, λ i. omega arith, λ j. omega arith, tt)
advanced_lem prefetch current none false h =
    (LaneState.idle, refl, λ i. omega arith, λ j. omega arith, tt)

module _ {T U : Type 0} where
  -- The coordinator between the lane's advance and the storing of the results: the answered
  -- indices are in no place.
  pub record Answered (indices : List ℕ) (c : Coordinator T U) : Type 0 where
    pub once : (i : ℕ) → count i indices + place c i ≤ below (length c.ordered) i
    pub kept : c.failed ≡ false → (i : ℕ) → below (length c.ordered) i ≤ count i indices + place c i
    pub cleared : c.failed ≡ true → c.pending ≡ []
    pub stopped_empty : is_stopped c.root ≡ true → c.pending ≡ []
    pub fresh : (j : ℕ) → outstanding_ids c j ≤ below c.next_batch_id j
    pub budget : c.next_batch_id + length c.pending ≤ length c.ordered
    pub addressable : length c.ordered < 2 ^ 64
    pub nonzero : 0 < c.batch_size
    pub root_shape : RootShape c.root
    pub remote_shapes : AllValues (RemoteShape c.prefetch) c.remotes

  pub stored :
      (results : List (ItemResult U)) (c : Coordinator T U) (ordered : List (Option U))
      → Answered (result_indices results) c
      → length ordered ≡ length c.ordered
      → ((i : ℕ) → filled i ordered ≡ filled i c.ordered + count i (result_indices results))
      → Inv (record c { ordered = ordered })
  stored results c ordered v size slots = record {
    once = λ i. ground (arith, v.once i, slots i);
    kept = λ ok_ i. ground (arith, v.kept ok_ i, slots i);
    cleared = v.cleared;
    stopped_empty = v.stopped_empty;
    fresh = v.fresh;
    budget = omega (arith, v.budget);
    addressable = omega (arith, v.addressable);
    nonzero = v.nonzero;
    root_shape = v.root_shape;
    remote_shapes = v.remote_shapes;
  }

  pub dropped :
      (indices : List ℕ) (c : Coordinator T U) → Answered indices c → c.failed ≡ true → Inv c
  dropped indices c v bad = record {
    once = λ i. omega (arith, v.once i);
    kept = λ good. cc;
    cleared = v.cleared;
    stopped_empty = v.stopped_empty;
    fresh = v.fresh;
    budget = v.budget;
    addressable = v.addressable;
    nonzero = v.nonzero;
    root_shape = v.root_shape;
    remote_shapes = v.remote_shapes;
  }

  -- Storing ends well whether or not the run has failed.
  pub store_lem :
      (results : List (ItemResult U)) (c : Coordinator T U)
      → Answered (result_indices results) c
      → (s : Coordinator T U) × (store results c ≡ (ok tt, s)) × Inv s
  unfolding store
  store_lem results c v = elim (Bool-cases c.failed) [
    | inl bad ↦ (c, ground arith, dropped _ c v bad)
    | inr good ↦
        let (ordered, done, size, slots) =
          fill_lem results c.ordered (λ i. omega (arith, v.once i)) in
        (record c { ordered = ordered }, ground arith, stored results c ordered v size slots)
  ]

  -- A lane that answers its current batch, before the results are stored.
  pub remote-Answered :
      (c : Coordinator T U) (rank : ℤ) (current : RunningMeta) (old new : LaneState)
      → Inv c
      → lookup rank c.remotes ≡ some old
      → ((i : ℕ) → held i old ≡ count i current.original_indices + held i new)
      → ((j : ℕ) → named j new ≤ named j old)
      → RemoteShape c.prefetch new
      → Answered current.original_indices (record c { remotes = insert rank new c.remotes })
  remote-Answered c rank current old new v e less named_less shape = record {
    once = λ i. ground (arith, v.once i, less i, total-insert (held i) rank new c.remotes);
    kept = λ ok_ i. ground (arith, v.kept ok_ i, less i, total-insert (held i) rank new c.remotes);
    cleared = v.cleared;
    stopped_empty = v.stopped_empty;
    fresh = λ j. ground (arith, v.fresh j, named_less j, total-insert (named j) rank new c.remotes);
    budget = v.budget;
    addressable = v.addressable;
    nonzero = v.nonzero;
    root_shape = v.root_shape;
    remote_shapes =
        AllValues-insert (RemoteShape c.prefetch) rank new c.remotes shape v.remote_shapes;
  }

  pub root-Answered :
      (c : Coordinator T U) (current : RunningMeta)
      → Inv c
      → c.root ≡ LaneState.running current none false
      → Answered current.original_indices (record c { root = LaneState.idle })
  root-Answered c current v e = record {
    once = λ i. ground (arith, v.once i);
    kept = λ ok_ i. ground (arith, v.kept ok_ i);
    cleared = v.cleared;
    stopped_empty = λ h. cc;
    fresh = λ j. ground (arith, v.fresh j);
    budget = v.budget;
    addressable = v.addressable;
    nonzero = v.nonzero;
    root_shape = tt;
    remote_shapes = v.remote_shapes;
  }

  -- The same, when the answer is an error: the queue is cleared.
  pub failed_all :
      (indices : List ℕ) (c : Coordinator T U)
      → Answered indices c
      → Inv (record c { failed = true; pending = [] })
  failed_all indices c v = record {
    once = λ i. omega (arith, v.once i);
    kept = λ good. cc;
    cleared = λ _. refl;
    stopped_empty = λ _. refl;
    fresh = v.fresh;
    budget = omega (arith, v.budget);
    addressable = v.addressable;
    nonzero = v.nonzero;
    root_shape = v.root_shape;
    remote_shapes = v.remote_shapes;
  }
