-- ===== src/Scheduler/Places.antt =====
-- Where an item's index may stand: in the queue, in a lane's batches, or in a filled slot; counted.
use hataori_rs.Prelude.{
  ℕ, zero, suc, ◌+◌, ◌≤◌, ◌<◌, ◌≡◌, refl, true, Option, none, some, List, [], ◌∷◌, map, arith, ltb,
  eqb, if◌then◌else◌, length, get_elem?, set, take, drop, count, replicate,
}
use hataori_rs.Scheduler.State.{ScheduledItem, ItemResult, RunningMeta, LaneState}
use hataori_rs.Scheduler.Batches.{indices_of, slot_filled, member}

-- 1 below `n`, 0 from `n` on.
abbrev pub below : ℕ → ℕ → ℕ
below n i = if ltb i n then 1 else 0

abbrev pub held_next : ℕ → Option RunningMeta → ℕ
held_next i none = 0
held_next i (some next) = count i next.original_indices

-- How often a lane's batches name an index.
abbrev pub held : ℕ → LaneState → ℕ
held i LaneState.idle = 0
held i (LaneState.running current prefetched stopping) =
    count i current.original_indices + held_next i prefetched
held i LaneState.stopped = 0
held i LaneState.drained = 0

abbrev pub named_next : ℕ → Option RunningMeta → ℕ
named_next j none = 0
named_next j (some next) = if eqb next.batch_id j then 1 else 0

-- How many of a lane's batches have an id.
abbrev pub named : ℕ → LaneState → ℕ
named j LaneState.idle = 0
named j (LaneState.running current prefetched stopping) =
    (if eqb current.batch_id j then 1 else 0) + named_next j prefetched
named j LaneState.stopped = 0
named j LaneState.drained = 0

abbrev pub filled : {U : Type 0} → ℕ → List (Option U) → ℕ
filled i ordered = if slot_filled (get_elem? ordered i) then 1 else 0

abbrev pub result_indices : {U : Type 0} → List (ItemResult U) → List ℕ
result_indices results = map (λ result. result.original_index) results

pub count-take-drop :
    {T : Type 0} (i n : ℕ) (items : List (ScheduledItem T))
    → count i (indices_of (take n items)) + count i (indices_of (drop n items))
      ≡ count i (indices_of items)
count-take-drop i zero items = omega arith
count-take-drop i (suc n) [] = omega arith
count-take-drop i (suc n) (x ∷ items) = omega (arith, count-take-drop i n items)

pub member-count : (i : ℕ) (xs : List ℕ) → member i xs ≡ true → 0 < count i xs
member-count i [] h = cc
member-count i (x ∷ xs) h = ground (arith, member-count i xs)

module _ {U : Type 0} where
  pub filled-le-below :
      (i : ℕ) (ordered : List (Option U)) → filled i ordered ≤ below (length ordered) i
  filled-le-below i [] = ground arith
  filled-le-below zero (x ∷ ordered) = ground arith
  filled-le-below (suc i) (x ∷ ordered) = ground (arith, filled-le-below i ordered)

  pub filled-set :
      (i j : ℕ) (u : U) (ordered : List (Option U))
      → j < length ordered
      → filled i (set ordered j (some u)) ≡ (if eqb j i then 1 else filled i ordered)
  filled-set i j u [] h = absurd (omega arith)
  filled-set zero zero u (x ∷ ordered) h = refl
  filled-set (suc i) zero u (x ∷ ordered) h = ground arith
  filled-set zero (suc j) u (x ∷ ordered) h = ground arith
  filled-set (suc i) (suc j) u (x ∷ ordered) h = ground (arith, filled-set i j u ordered)

pub filled-replicate : (U : Type 0) (i n : ℕ) → filled {U = U} i (replicate n none) ≡ 0
filled-replicate U i zero = refl
filled-replicate U zero (suc n) = refl
filled-replicate U (suc i) (suc n) = filled-replicate U i n
