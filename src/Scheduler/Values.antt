-- ===== src/Scheduler/Values.antt =====
-- src/scheduler.rs: whose results the coordinator holds, if every worker computes `f`.
use hataori_rs.Prelude.{
  ℕ, zero, suc, ◌≡◌, Option, some, List, [], ◌∷◌, arith, ok, length, get_elem?, set, All, All-drop,
  subst, min, inl, inr, Result-cases,
}
use hataori_rs.Prelude.Int.{ℤ, int_key}
use hataori_rs.Prelude.Assoc.{AtValue, lookup, insert}
use hataori_rs.Scheduler.State.{ScheduledItem, ItemResult, LaneState, Coordinator, BatchId}
use hataori_rs.Scheduler.Batches.{fill}
use hataori_rs.Scheduler.Lanes.{prefetch_request, mark_stopping, add_prefetched, advanced}
use hataori_rs.Scheduler.Ops.{
  on_remote_ready, next_root_batch, store, on_root_success, on_remote_success, on_root_error,
  on_remote_error, on_remote_protocol_error, on_remote_drain,
}
use hataori_rs.Scheduler.Calls.{
  Call, root_batch, remote_ready, root_success, remote_success, root_error, remote_error,
  remote_protocol_error, remote_drain,
}

module _ {T U : Type 0} (f : T → U) where
  -- A slot holds nothing, or what `f` gives for the item of its position.
  abbrev pub Slots : List T → List (Option U) → Type 0
  Slots [] [] = Unit
  Slots [] (o ∷ ordered) = ⊥
  Slots (x ∷ items) [] = ⊥
  Slots (x ∷ items) (o ∷ ordered) = AtValue (λ u. u ≡ f x) o × Slots items ordered

module _ {T U : Type 0} (f : T → U) (items : List T) where
  -- A queued item is the input of its index.
  abbrev pub Original : ScheduledItem T → Type 0
  Original item = get_elem? items item.original_index ≡ some item.value

  -- A result is what `f` gives for the input of its index.
  abbrev pub Honest : ItemResult U → Type 0
  Honest result = (x : T) × (get_elem? items result.original_index ≡ some x) × (result.value ≡ f x)

  abbrev pub HonestCall : Call U → Type 0
  HonestCall (root_success id results) = All Honest results
  HonestCall (remote_success rank id results) = All Honest results
  HonestCall root_batch = Unit
  HonestCall (remote_ready rank) = Unit
  HonestCall (root_error id) = Unit
  HonestCall (remote_error rank id) = Unit
  HonestCall (remote_protocol_error rank) = Unit
  HonestCall (remote_drain rank) = Unit

  pub record Faithful (c : Coordinator T U) : Type 0 where
    pub queue : All Original c.pending
    pub slots : Slots f items c.ordered

module _ {T U : Type 0} (f : T → U) where
  set-Slots :
      (items : List T) (ordered : List (Option U)) (i : ℕ) (x : T) (u : U)
      → get_elem? items i ≡ some x
      → u ≡ f x
      → Slots f items ordered
      → Slots f items (set ordered i (some u))
  set-Slots [] [] i x u e q h = tt
  set-Slots [] (o ∷ ordered) i x u e q h = absurd h
  set-Slots (y ∷ items) [] i x u e q h = absurd h
  set-Slots (y ∷ items) (o ∷ ordered) zero x u e q h = (cc, h.1)
  set-Slots (y ∷ items) (o ∷ ordered) (suc i) x u e q h =
      (h.0, set-Slots items ordered i x u e q h.1)

module _ {T U : Type 0} (f : T → U) (items : List T) where
  fill-Slots :
      (results : List (ItemResult U)) (ordered ordered' : List (Option U))
      → All (Honest f items) results
      → Slots f items ordered
      → fill results ordered ≡ ok ordered'
      → Slots f items ordered'
  unfolding fill
  fill-Slots [] ordered ordered' h s e = subst (Slots f items) (ground arith) s
  fill-Slots (r ∷ results) ordered ordered' ((x, at, val), h) s e =
      fill-Slots results (set ordered r.original_index (some r.value)) ordered' h
        (set-Slots f items ordered r.original_index x r.value at val s) (ground arith)

  module _ (c : Coordinator T U) (v : Faithful f items c) where
    pub on_remote_ready-Faithful : (rank : ℤ) → Faithful f items (on_remote_ready rank c).1
    unfolding on_remote_ready prefetch_request mark_stopping add_prefetched
    on_remote_ready-Faithful rank =
        ground (
          arith,
          All-drop (Original f items) (min c.batch_size (length c.pending)) c.pending v.queue,
        )

    pub next_root_batch-Faithful : Faithful f items (next_root_batch c).1
    unfolding next_root_batch
    next_root_batch-Faithful =
        ground (
          arith,
          All-drop (Original f items) (min c.batch_size (length c.pending)) c.pending v.queue,
        )

    store-Faithful :
        (results : List (ItemResult U))
        → All (Honest f items) results
        → Faithful f items (store results c).1
    unfolding store
    store-Faithful results h = elim (Result-cases (fill results c.ordered)) [
      | inl (ordered, e) ↦
          let kept = fill-Slots results c.ordered ordered h v.slots e in ground (arith, kept)
      | inr (inl (x, e)) ↦ ground arith
      | inr (inr e) ↦ ground arith
    ]

    pub on_remote_drain-Faithful : (rank : ℤ) → Faithful f items (on_remote_drain rank c).1
    unfolding on_remote_drain
    on_remote_drain-Faithful rank = ground arith

    pub on_root_error-Faithful : (id : BatchId) → Faithful f items (on_root_error id c).1
    unfolding on_root_error
    on_root_error-Faithful id = ground arith

    pub on_remote_error-Faithful :
        (rank : ℤ) (id : BatchId) → Faithful f items (on_remote_error rank id c).1
    unfolding on_remote_error
    on_remote_error-Faithful rank id = ground arith

    pub on_remote_protocol_error-Faithful :
        (rank : ℤ) → Faithful f items (on_remote_protocol_error rank c).1
    unfolding on_remote_protocol_error
    on_remote_protocol_error-Faithful rank = ground arith

  module _ (c : Coordinator T U) (v : Faithful f items c) (results : List (ItemResult U))
      (h : All (Honest f items) results) where
    with_root : (state : LaneState) → Faithful f items (record c { root = state })
    with_root state = record { queue = v.queue; slots = v.slots }

    with_remotes :
        (remotes : List (ℤ × LaneState)) → Faithful f items (record c { remotes = remotes })
    with_remotes remotes = record { queue = v.queue; slots = v.slots }

    pub on_root_success-Faithful :
        (id : BatchId) → Faithful f items (on_root_success id results c).1
    unfolding on_root_success
    on_root_success-Faithful id =
        ground (arith, store-Faithful _ (with_root LaneState.idle) results h)

    pub on_remote_success-Faithful :
        (rank : ℤ) (id : BatchId) → Faithful f items (on_remote_success rank id results c).1
    unfolding on_remote_success
    on_remote_success-Faithful rank id = elim (Result-cases (advanced (lookup rank c.remotes))) [
      | inl (new, e) ↦
          ground (arith, store-Faithful _ (with_remotes (insert rank new c.remotes)) results h)
      | inr (inl (x, e)) ↦ ground arith
      | inr (inr e) ↦ ground arith
    ]
