-- ===== src/Scheduler/Invariant.antt =====
-- src/scheduler.rs: the coordinator's invariant, and what a safe call is.
use hataori_rs.Prelude.{
  ℕ, ◌+◌, ◌≤◌, ◌<◌, ◌^◌, ◌≡◌, Bool, true, false, none, some, [], length, count, Result, ok, err,
  panic,
}
use hataori_rs.Prelude.Assoc.{total, AllValues}
use hataori_rs.Scheduler.State.{LaneState, Coordinator, SchedulerError}
use hataori_rs.Scheduler.Batches.{indices_of}
use hataori_rs.Scheduler.Ends.{is_stopped}
use hataori_rs.Scheduler.Places.{below, held, named, filled}

-- A remote lane holds a second batch only with prefetching on and while it is not stopping.
abbrev pub RemoteShape : Bool → LaneState → Type 0
RemoteShape prefetch (LaneState.running current (some next) stopping) =
    (prefetch ≡ true) × (stopping ≡ false)
RemoteShape prefetch (LaneState.running current none stopping) = Unit
RemoteShape prefetch LaneState.idle = Unit
RemoteShape prefetch LaneState.stopped = Unit
RemoteShape prefetch LaneState.drained = Unit

-- The root lane holds one batch at most, is never asked to stop while it runs, and never drained.
abbrev pub RootShape : LaneState → Type 0
RootShape LaneState.idle = Unit
RootShape (LaneState.running current none false) = Unit
RootShape (LaneState.running current none true) = ⊥
RootShape (LaneState.running current (some next) stopping) = ⊥
RootShape LaneState.stopped = Unit
RootShape LaneState.drained = ⊥

module _ {T U : Type 0} where
  -- How often an index stands in the queue, the lanes and the filled slots together.
  abbrev pub place : Coordinator T U → ℕ → ℕ
  place c i =
      count i (indices_of c.pending) + held i c.root + total (held i) c.remotes + filled i c.ordered

  abbrev pub outstanding_ids : Coordinator T U → ℕ → ℕ
  outstanding_ids c j = named j c.root + total (named j) c.remotes

  pub record Inv (c : Coordinator T U) : Type 0 where
    -- No index is in two places, and none is out of range.
    pub once : (i : ℕ) → place c i ≤ below (length c.ordered) i
    -- Unless the run failed, no index is lost.
    pub kept : c.failed ≡ false → (i : ℕ) → below (length c.ordered) i ≤ place c i
    pub cleared : c.failed ≡ true → c.pending ≡ []
    -- The root stops only when nothing is left to hand out.
    pub stopped_empty : is_stopped c.root ≡ true → c.pending ≡ []
    -- Outstanding batches have different ids, all of them used up.
    pub fresh : (j : ℕ) → outstanding_ids c j ≤ below c.next_batch_id j
    -- Ids last: each batch takes an item at least.
    pub budget : c.next_batch_id + length c.pending ≤ length c.ordered
    pub addressable : length c.ordered < 2 ^ 64
    pub nonzero : 0 < c.batch_size
    pub root_shape : RootShape c.root
    pub remote_shapes : AllValues (RemoteShape c.prefetch) c.remotes

  -- A call ends well: it does not panic, an error leaves the coordinator as it was, and a success
  -- meets `Q`.
  abbrev pub Safe :
      {A : Type 0}
      → Coordinator T U
      → (A → Coordinator T U → Type 0)
      → Result SchedulerError A × Coordinator T U
      → Type 0
  Safe c Q (ok a, s) = Q a s
  Safe c Q (err e, s) = s ≡ c
  Safe c Q (panic, s) = ⊥
