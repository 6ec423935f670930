-- ===== src/Scheduler/Handing.antt =====
-- src/scheduler.rs: handing out batches keeps the invariant.
use hataori_rs.Prelude.{
  ℕ, ◌+◌, min, ◌≡◌, refl, true, false, none, some, ◌||◌, inl, inr, arith, length, ok, is_empty,
  take, drop, Bool-cases, length-drop, subst,
}
use hataori_rs.Prelude.Int.{int_key}
use hataori_rs.Scheduler.State.{LaneState, kind, Coordinator, Batch}
use hataori_rs.Scheduler.Batches.{metadata}
use hataori_rs.Scheduler.Ops.{make_batch, next_root_batch, root_turn, start_root}
use hataori_rs.Scheduler.Places.{held, count-take-drop}
use hataori_rs.Scheduler.Invariant.{Inv, Safe, RootShape}

module _ {T U : Type 0} where
  abbrev pub cut_count : Coordinator T U → ℕ
  cut_count c = min c.batch_size (length c.pending)

  -- The batch that is cut next, and the coordinator without it.
  abbrev pub next_batch : Coordinator T U → Batch T
  next_batch c = record { id = c.next_batch_id; items = take (cut_count c) c.pending }

  abbrev pub without_next : Coordinator T U → Coordinator T U
  without_next c = record c {
    pending = drop (cut_count c) c.pending;
    next_batch_id = c.next_batch_id + 1;
  }

  pub make_batch_lem :
      (c : Coordinator T U)
      → Inv c
      → (c.failed || is_empty c.pending) ≡ false
      → make_batch c ≡ (ok (some (next_batch c)), without_next c)
  unfolding make_batch
  make_batch_lem c v h = ground arith

  -- A batch that goes to a lane takes its indices with it.
  module _ (c : Coordinator T U) (v : Inv c)
      (open_ : (c.failed || is_empty c.pending) ≡ false) where
    given_root :
        c.root ≡ LaneState.idle
        → Inv (record (without_next c) {
          root = LaneState.running (metadata (next_batch c)) none false;
        })
    given_root e = record {
      once = λ i. ground (arith, v.once i, count-take-drop i (cut_count c) c.pending);
      kept = λ ok_ i. ground (arith, v.kept ok_ i, count-take-drop i (cut_count c) c.pending);
      cleared = λ bad. ground arith;
      stopped_empty = λ bad. ground arith;
      fresh = λ j. ground (arith, v.fresh j);
      budget = ground (arith, v.budget, v.nonzero, length-drop (cut_count c) c.pending);
      addressable = v.addressable;
      nonzero = v.nonzero;
      root_shape = tt;
      remote_shapes = v.remote_shapes;
    }

  root_stops :
      (c : Coordinator T U)
      → Inv c
      → held 0 c.root ≡ held 0 LaneState.idle
      → (c.failed || is_empty c.pending) ≡ true
      → c.root ≡ LaneState.idle
      → Inv (record c { root = LaneState.stopped })
  root_stops c v _ done e = record {
    once = λ i. ground (arith, v.once i);
    kept = λ ok_ i. ground (arith, v.kept ok_ i);
    cleared = v.cleared;
    stopped_empty = λ _. ground (arith, v.cleared);
    fresh = λ j. ground (arith, v.fresh j);
    budget = v.budget;
    addressable = v.addressable;
    nonzero = v.nonzero;
    root_shape = tt;
    remote_shapes = v.remote_shapes;
  }

  start_root-Safe :
      (c : Coordinator T U) → Inv c → c.root ≡ LaneState.idle → Safe c (λ _ s. Inv s) (start_root c)
  unfolding start_root
  start_root-Safe c v e = elim (Bool-cases (c.failed || is_empty c.pending)) [
    | inl done ↦ rw done (root_stops c v (ground arith) done e)
    | inr more ↦ rw (more, make_batch_lem c v more) (given_root c v more e)
  ]

  root_turn-Safe :
      (c : Coordinator T U) (state : LaneState)
      → Inv c
      → c.root ≡ state
      → Safe c (λ _ s. Inv s) (root_turn (kind state) c)
  unfolding root_turn
  root_turn-Safe c LaneState.idle v e = start_root-Safe c v e
  root_turn-Safe c (LaneState.running current prefetched stopping) v e = refl
  root_turn-Safe c LaneState.stopped v e = v
  root_turn-Safe c LaneState.drained v e = absurd (subst RootShape e v.root_shape)

  pub next_root_batch-Safe :
      (c : Coordinator T U) → Inv c → Safe c (λ _ s. Inv s) (next_root_batch c)
  unfolding next_root_batch
  next_root_batch-Safe c v = root_turn-Safe c c.root v refl
