-- ===== src/Scheduler/Dispatching.antt =====
-- src/scheduler.rs: which batches are handed out.
use hataori_rs.Prelude.{
  ◌+◌, ◌≤◌, ◌<◌, ◌≡◌, refl, sym, false, ◌||◌, some, List, [], ◌++◌, arith, ok, length, is_empty,
  length-take, take-append-drop, drop, All, All-front, subst,
}
use hataori_rs.Prelude.Int.{ℤ, int_key}
use hataori_rs.Scheduler.State.{Coordinator, Batch, task, stop}
use hataori_rs.Scheduler.Lanes.{prefetch_request, mark_stopping, add_prefetched}
use hataori_rs.Scheduler.Ops.{on_remote_ready, next_root_batch}
use hataori_rs.Scheduler.Invariant.{Inv}
use hataori_rs.Scheduler.Handing.{next_batch, cut_count}
use hataori_rs.Scheduler.Values.{Original, Faithful}

module _ {T U : Type 0} where
  -- A batch cut from the front of the queue.
  pub record Cut (c s : Coordinator T U) (batch : Batch T) : Type 0 where
    pub front : c.pending ≡ batch.items ++ s.pending
    pub nonempty : 0 < length batch.items
    pub bounded : length batch.items ≤ c.batch_size
    pub named : batch.id ≡ c.next_batch_id
    pub counted : s.next_batch_id ≡ c.next_batch_id + 1
    pub running : c.failed ≡ false

  next_batch-Cut :
      (c s : Coordinator T U)
      → Inv c
      → (c.failed || is_empty c.pending) ≡ false
      → s.pending ≡ drop (cut_count c) c.pending
      → s.next_batch_id ≡ c.next_batch_id + 1
      → Cut c s (next_batch c)
  next_batch-Cut c s v more e n = record {
    front = ground (arith, take-append-drop (cut_count c) c.pending);
    nonempty = ground (arith, v.nonzero, length-take (cut_count c) c.pending);
    bounded = omega (arith, length-take (cut_count c) c.pending);
    named = refl;
    counted = n;
    running = ground arith;
  }

  module _ (c s : Coordinator T U) (v : Inv c) where
    root_task :
        (batch : Batch T)
        → next_root_batch c ≡ (ok (some batch), s)
        → ((c.failed || is_empty c.pending) ≡ false)
          × (batch ≡ next_batch c)
          × (s.pending ≡ drop (cut_count c) c.pending)
          × (s.next_batch_id ≡ c.next_batch_id + 1)
    unfolding next_root_batch
    root_task batch e = ground arith

    remote_task :
        (rank : ℤ) (batch : Batch T)
        → on_remote_ready rank c ≡ (ok (task batch), s)
        → ((c.failed || is_empty c.pending) ≡ false)
          × (batch ≡ next_batch c)
          × (s.pending ≡ drop (cut_count c) c.pending)
          × (s.next_batch_id ≡ c.next_batch_id + 1)
    unfolding on_remote_ready prefetch_request mark_stopping add_prefetched
    remote_task rank batch e = ground arith

    -- The batch that the root is given is cut from the front of the queue: at least one item and at
    -- most `batch_size`, under the next id, and only while no lane has failed.
    pub next_root_batch-Cut :
        (batch : Batch T) → next_root_batch c ≡ (ok (some batch), s) → Cut c s batch
    next_root_batch-Cut batch e =
        let (more, same, rest, n) = root_task batch e in
        subst (Cut c s) (sym same) (next_batch-Cut c s v more rest n)

    -- So is the batch that a remote lane is given.
    pub on_remote_ready-Cut :
        (rank : ℤ) (batch : Batch T) → on_remote_ready rank c ≡ (ok (task batch), s) → Cut c s batch
    on_remote_ready-Cut rank batch e =
        let (more, same, rest, n) = remote_task rank batch e in
        subst (Cut c s) (sym same) (next_batch-Cut c s v more rest n)

    -- A lane is told to stop only when the queue is empty.
    pub on_remote_ready-stop :
        (rank : ℤ) → on_remote_ready rank c ≡ (ok stop, s) → (c.pending ≡ []) × (s.pending ≡ [])
    unfolding on_remote_ready prefetch_request mark_stopping add_prefetched
    on_remote_ready-stop rank e = ground (arith, v.cleared)

    -- The items of a batch are the inputs of their indices.
    pub Cut-Original :
        (f : T → U) (items : List T) (batch : Batch T)
        → Faithful f items c
        → Cut c s batch
        → All (Original f items) batch.items
    Cut-Original f items batch w k =
        All-front (Original f items) batch.items s.pending
          (subst (All (Original f items)) k.front w.queue)
