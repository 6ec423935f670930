-- ===== src/Scheduler/Remotes.antt =====
-- src/scheduler.rs: a change of one remote lane keeps the invariant.
use hataori_rs.Prelude.{
  ℕ, ◌+◌, ◌≡◌, refl, true, false, Option, none, some, inl, inr, ◌||◌, arith, eqb, if◌then◌else◌,
  count, ok, err, is_empty, Bool-cases, length-drop,
}
use hataori_rs.Prelude.Int.{ℤ, int_key}
use hataori_rs.Prelude.Assoc.{lookup, insert, total-insert, AllValues-insert}
use hataori_rs.Scheduler.State.{RunningMeta, LaneState, Coordinator, SchedulerError}
use hataori_rs.Scheduler.Batches.{indices_of}
use hataori_rs.Scheduler.Lanes.{prefetch_request, add_prefetched, mark_stopping, drained_lane}
use hataori_rs.Scheduler.Ops.{on_remote_ready, on_remote_drain}
use hataori_rs.Scheduler.Places.{held, named, count-take-drop}
use hataori_rs.Scheduler.Invariant.{Inv, Safe, RemoteShape}
use hataori_rs.Scheduler.Handing.{next_batch, without_next, cut_count, make_batch_lem}

module _ {T U : Type 0} where
  abbrev with_remote : Coordinator T U → ℤ → LaneState → Coordinator T U
  with_remote c rank state = record c { remotes = insert rank state c.remotes }

  -- The lane keeps its batches.
  pub same_batches :
      (c : Coordinator T U) (rank : ℤ) (old new : LaneState)
      → Inv c
      → lookup rank c.remotes ≡ some old
      → ((i : ℕ) → held i new ≡ held i old)
      → ((j : ℕ) → named j new ≡ named j old)
      → RemoteShape c.prefetch new
      → Inv (with_remote c rank new)
  same_batches c rank old new v e same named_same shape = record {
    once = λ i. ground (arith, v.once i, same i, total-insert (held i) rank new c.remotes);
    kept = λ ok_ i. ground (arith, v.kept ok_ i, same i, total-insert (held i) rank new c.remotes);
    cleared = v.cleared;
    stopped_empty = v.stopped_empty;
    fresh = λ j. ground (arith, v.fresh j, named_same j, total-insert (named j) rank new c.remotes);
    budget = v.budget;
    addressable = v.addressable;
    nonzero = v.nonzero;
    root_shape = v.root_shape;
    remote_shapes =
        AllValues-insert (RemoteShape c.prefetch) rank new c.remotes shape v.remote_shapes;
  }

  -- The lane takes the next batch on.
  given_remote :
      (c : Coordinator T U) (rank : ℤ) (old new : LaneState)
      → Inv c
      → (c.failed || is_empty c.pending) ≡ false
      → lookup rank c.remotes ≡ some old
      → ((i : ℕ) → held i new ≡ held i old + count i (indices_of (next_batch c).items))
      → ((j : ℕ) → named j new ≡ named j old + (if eqb c.next_batch_id j then 1 else 0))
      → RemoteShape c.prefetch new
      → Inv (with_remote (without_next c) rank new)
  given_remote c rank old new v open_ e more named_more shape = record {
    once = λ i. ground (
      arith,
      v.once i,
      more i,
      total-insert (held i) rank new c.remotes,
      count-take-drop i (cut_count c) c.pending,
    );
    kept = λ ok_ i. ground (
      arith,
      v.kept ok_ i,
      more i,
      total-insert (held i) rank new c.remotes,
      count-take-drop i (cut_count c) c.pending,
    );
    cleared = λ bad. ground arith;
    stopped_empty = λ h. ground (arith, v.stopped_empty h);
    fresh = λ j. ground (arith, v.fresh j, named_more j, total-insert (named j) rank new c.remotes);
    budget = ground (arith, v.budget, v.nonzero, length-drop (cut_count c) c.pending);
    addressable = v.addressable;
    nonzero = v.nonzero;
    root_shape = v.root_shape;
    remote_shapes =
        AllValues-insert (RemoteShape c.prefetch) rank new c.remotes shape v.remote_shapes;
  }

  module _ (c : Coordinator T U) (rank : ℤ) (v : Inv c) where
    idle_ready :
        prefetch_request c.prefetch (lookup rank c.remotes) ≡ ok false
        → lookup rank c.remotes ≡ some LaneState.idle
        → Safe c (λ _ s. Inv s) (on_remote_ready rank c)
    unfolding on_remote_ready
    idle_ready request e = elim (Bool-cases (c.failed || is_empty c.pending)) [
      | inl done ↦
          rw (request, done)
            (same_batches c rank LaneState.idle LaneState.stopped v e (λ _. refl) (λ _. refl) tt)
      | inr more ↦
          rw (request, more, make_batch_lem c v more)
            (given_remote c rank LaneState.idle _ v more e (λ i. omega arith) (λ j. omega arith) tt)
    ]

    running_ready :
        (current : RunningMeta)
        → prefetch_request c.prefetch (lookup rank c.remotes) ≡ ok true
        → c.prefetch ≡ true
        → lookup rank c.remotes ≡ some (LaneState.running current none false)
        → Safe c (λ _ s. Inv s) (on_remote_ready rank c)
    unfolding on_remote_ready mark_stopping add_prefetched
    running_ready current request on e = elim (Bool-cases (c.failed || is_empty c.pending)) [
      | inl done ↦
          rw (request, done, e, mark_stopping)
            (same_batches c rank _ (LaneState.running current none true) v e (λ _. refl) (λ _. refl)
              tt)
      | inr more ↦
          rw (request, more, make_batch_lem c v more, e, add_prefetched)
            (given_remote c rank _ _ v more e (λ i. omega arith) (λ j. omega arith) (on, refl))
    ]

    ready-Safe :
        (o : Option LaneState)
        → lookup rank c.remotes ≡ o
        → Safe c (λ _ s. Inv s) (on_remote_ready rank c)
    unfolding on_remote_ready prefetch_request
    ready-Safe none e = rw (e, prefetch_request)
    ready-Safe (some LaneState.idle) e = idle_ready (rw e) e
    ready-Safe (some (LaneState.running current none false)) e = elim (Bool-cases c.prefetch) [
      | inl on ↦ running_ready current (ground arith) on e
      | inr off ↦ rw (refuse off)
    ]
      where
        refuse :
            c.prefetch ≡ false
            → prefetch_request c.prefetch (lookup rank c.remotes)
              ≡ err SchedulerError.wrong_lane_state
        refuse off = ground arith
    ready-Safe (some (LaneState.running current none true)) e = rw (e, prefetch_request)
    ready-Safe (some (LaneState.running current (some next) stopping)) e = rw (e, prefetch_request)
    ready-Safe (some LaneState.stopped) e = rw (e, prefetch_request)
    ready-Safe (some LaneState.drained) e = rw (e, prefetch_request)

    pub on_remote_ready-Safe : Safe c (λ _ s. Inv s) (on_remote_ready rank c)
    on_remote_ready-Safe = ready-Safe (lookup rank c.remotes) refl

    drain-Safe :
        (o : Option LaneState)
        → lookup rank c.remotes ≡ o
        → Safe c (λ _ s. Inv s) (on_remote_drain rank c)
    unfolding on_remote_drain drained_lane
    drain-Safe none e = rw (e, drained_lane)
    drain-Safe (some LaneState.idle) e = rw (e, drained_lane)
    drain-Safe (some (LaneState.running current prefetched stopping)) e = rw (e, drained_lane)
    drain-Safe (some LaneState.stopped) e =
        rw (e, drained_lane)
          (same_batches c rank LaneState.stopped LaneState.drained v e (λ _. refl) (λ _. refl) tt)
    drain-Safe (some LaneState.drained) e = rw (e, drained_lane)

    pub on_remote_drain-Safe : Safe c (λ _ s. Inv s) (on_remote_drain rank c)
    on_remote_drain-Safe = drain-Safe (lookup rank c.remotes) refl
