-- ===== src/Scheduler/Start.antt =====
-- src/scheduler.rs: what a new coordinator is.
use hataori_rs.Prelude.{
  ℕ, zero, suc, ◌+◌, ◌^◌, ◌≤◌, ◌<◌, ◌≡◌, refl, Bool, false, Option, none, some, List, [], ◌∷◌,
  arith, ok, length, count, get_elem?, replicate, drop, All, length-replicate, inl, inr, sym,
  Result-cases, ap, subst,
}
use hataori_rs.Prelude.Int.{ℤ, int_key}
use hataori_rs.Prelude.Assoc.{insert, total, AllValues, AllValues-insert}
use hataori_rs.Scheduler.State.{ScheduledItem, LaneState, Coordinator}
use hataori_rs.Scheduler.Batches.{indices_of}
use hataori_rs.Scheduler.Ends.{enqueue, add_remotes, new_with_prefetch}
use hataori_rs.Scheduler.Places.{below, held, named, filled-replicate}
use hataori_rs.Scheduler.Invariant.{Inv, RemoteShape}
use hataori_rs.Scheduler.Values.{Original, Faithful, Slots}

module _ {T : Type 0} where
  -- The items with their positions from `index` on.
  abbrev pub numbered : ℕ → List T → List (ScheduledItem T)
  numbered index [] = []
  numbered index (x ∷ items) =
      record { original_index = index; value = x } ∷ numbered (index + 1) items

  enqueue-numbered :
      (index : ℕ) (items : List T)
      → index + length items ≤ 2 ^ 64
      → enqueue index items ≡ ok (numbered index items)
  unfolding enqueue
  enqueue-numbered index [] h = refl
  enqueue-numbered index (x ∷ items) h =
      ground (arith, enqueue-numbered (index + 1) items (omega arith))

  length-numbered : (index : ℕ) (items : List T) → length (numbered index items) ≡ length items
  length-numbered index [] = refl
  length-numbered index (x ∷ items) = ap suc (length-numbered (index + 1) items)

  count-numbered :
      (i index : ℕ) (items : List T)
      → count i (indices_of (numbered index items)) + below index i ≡ below (index + length items) i
  count-numbered i index [] = ground arith
  count-numbered i index (x ∷ items) = ground (arith, count-numbered i (index + 1) items)

  get_elem?-drop :
      (xs : List T) (n : ℕ) (x : T) (rest : List T)
      → drop n xs ≡ x ∷ rest
      → (get_elem? xs n ≡ some x) × (drop (suc n) xs ≡ rest)
  get_elem?-drop [] zero x rest e = cc
  get_elem?-drop [] (suc n) x rest e = cc
  get_elem?-drop (y ∷ xs) zero x rest e = ground arith
  get_elem?-drop (y ∷ xs) (suc n) x rest e = get_elem?-drop xs n x rest e

  numbered-Original :
      {U : Type 0} (f : T → U) (all rest : List T) (index : ℕ)
      → drop index all ≡ rest
      → All (Original f all) (numbered index rest)
  numbered-Original f all [] index e = tt
  numbered-Original f all (x ∷ rest) index e =
      let (at, next) = get_elem?-drop all index x rest e in
      (at, numbered-Original f all rest (index + 1) (ground arith))

replicate-Slots :
    {T U : Type 0} (f : T → U) (items : List T) → Slots f items (replicate (length items) none)
replicate-Slots f [] = tt
replicate-Slots f (x ∷ items) = (tt, replicate-Slots f items)

abbrev IsIdle : LaneState → Type 0
IsIdle state = state ≡ LaneState.idle

add_remotes-IsIdle :
    (root_rank : ℤ) (ranks : List ℤ) (before after : List (ℤ × LaneState))
    → AllValues IsIdle before
    → add_remotes root_rank ranks before ≡ ok after
    → AllValues IsIdle after
unfolding add_remotes
add_remotes-IsIdle root_rank [] before after h e = subst (AllValues IsIdle) (ground arith) h
add_remotes-IsIdle root_rank (rank ∷ ranks) before after h e =
    add_remotes-IsIdle root_rank ranks (insert rank LaneState.idle before) after
      (AllValues-insert IsIdle rank LaneState.idle before refl h) (ground arith)

idle_total :
    (w : LaneState → ℕ) (remotes : List (ℤ × LaneState))
    → w LaneState.idle ≡ 0
    → AllValues IsIdle remotes
    → total w remotes ≡ 0
idle_total w [] z h = refl
idle_total w ((rank, state) ∷ remotes) z h = omega (arith, ap w h.0, idle_total w remotes z h.1)

idle_shapes :
    (prefetch : Bool) (remotes : List (ℤ × LaneState))
    → AllValues IsIdle remotes
    → AllValues (RemoteShape prefetch) remotes
idle_shapes prefetch [] h = tt
idle_shapes prefetch ((rank, state) ∷ remotes) h =
    (subst (RemoteShape prefetch) (sym h.0) tt, idle_shapes prefetch remotes h.1)

module _ {T U : Type 0} (root_rank : ℤ) (ranks : List ℤ) (items : List T) (batch_size : ℕ)
    (prefetch : Bool) where
  -- What a success makes.
  fresh_one : List (ℤ × LaneState) → Coordinator T U
  fresh_one remotes = record {
    pending = numbered 0 items;
    ordered = replicate (length items) none;
    batch_size = batch_size;
    next_batch_id = 0;
    root = LaneState.idle;
    remotes = remotes;
    prefetch = prefetch;
    failed = false;
  }

  new_lem :
      (c : Coordinator T U)
      → length items < 2 ^ 64
      → new_with_prefetch root_rank ranks items batch_size prefetch ≡ ok c
      → (remotes : List (ℤ × LaneState)) × (add_remotes root_rank ranks [] ≡ ok remotes)
        × (c ≡ fresh_one remotes)
  unfolding new_with_prefetch fresh_one
  new_lem c h e = elim (Result-cases (add_remotes root_rank ranks [])) [
    | inl (remotes, q) ↦
        (remotes, q, ground (arith, enqueue-numbered 0 items, length-numbered 0 items))
    | inr (inl (x, q)) ↦ absurd (ground arith)
    | inr (inr q) ↦ absurd (ground arith)
  ]

  fresh_one-Inv :
      (remotes : List (ℤ × LaneState))
      → length items < 2 ^ 64
      → 0 < batch_size
      → AllValues IsIdle remotes
      → Inv (fresh_one remotes)
  unfolding fresh_one
  fresh_one-Inv remotes fits positive h = record {
    once = λ i. ground (
      arith,
      idle_total (held i) remotes refl h,
      count-numbered i 0 items,
      filled-replicate U i (length items),
      length-replicate {0} {A = Option U} (length items) none,
    );
    kept = λ _ i.
        ground (
          arith,
          count-numbered i 0 items,
          length-replicate {0} {A = Option U} (length items) none,
        );
    cleared = λ bad. cc;
    stopped_empty = λ bad. cc;
    fresh = λ j. omega (arith, idle_total (named j) remotes refl h);
    budget =
        omega
          (arith, length-numbered 0 items, length-replicate {0} {A = Option U} (length items) none);
    addressable = omega (arith, length-replicate {0} {A = Option U} (length items) none);
    nonzero = positive;
    root_shape = tt;
    remote_shapes = idle_shapes prefetch remotes h;
  }

  -- A new coordinator over fewer than 2 ^ 64 items is well-formed.
  pub new_with_prefetch-Inv :
      (c : Coordinator T U)
      → length items < 2 ^ 64
      → 0 < batch_size
      → new_with_prefetch root_rank ranks items batch_size prefetch ≡ ok c
      → Inv c
  new_with_prefetch-Inv c fits positive e =
      let (remotes, q, same) = new_lem c fits e in
      subst Inv (sym same)
        (fresh_one-Inv remotes fits positive (add_remotes-IsIdle root_rank ranks [] remotes tt q))

  pub new_with_prefetch-Faithful :
      (f : T → U) (c : Coordinator T U)
      → length items < 2 ^ 64
      → new_with_prefetch root_rank ranks items batch_size prefetch ≡ ok c
      → Faithful f items c
  unfolding fresh_one
  new_with_prefetch-Faithful f c fits e =
      let (remotes, q, same) = new_lem c fits e in
      subst (Faithful f items) (sym same)
        (record { queue = numbered-Original f items items 0 refl; slots = replicate-Slots f items })
