-- ===== src/Algorithms/Controller.antt =====
-- crates/hataori-algorithms/src/batch.rs: `build` and `PmapFuture::poll`. What runs a batch is another
-- component's: `submit` starts one and `poll_future` asks for its reply, both over a state `W`.
use Prim.Native.String.{String}
use hataori_rs.Prelude.{
  ℕ, zero, suc, ◌+◌, ◌^◌, Bool, true, false, not, ◌&&◌, Option, none, some, List, [], ◌∷◌, ◌++◌,
  Result, ok, err, panic, ltb, if◌then◌else◌, length, is_empty, get_elem?, set, take, drop,
  replicate,
}
use hataori_rs.Prelude.Action.{Action, ◌>>=◌, ◌>>◌, pure, fail, read, get, modify, expect}
use hataori_rs.Prelude.Fallible
use hataori_rs.Runtime.Errors.{RuntimeError}
use hataori_rs.Algorithms.{AlgorithmError, LocalMode, PmapOptions, validate_options, with_targets}

pub record BatchAction (A : Type 0) : Type 0 where
  pub start : ℕ
  pub mode : LocalMode
  pub items : List A

-- `item_ok` and `item_err` stand for `Ok` and `Err`.
pub data ItemReply (T : Type 0) : Type 0 where
  item_ok : T → ItemReply T
  item_err : String → ItemReply T

pub record BatchReply (T : Type 0) : Type 0 where
  pub start : ℕ
  pub items : List (ItemReply T)

pub record ControllerStats : Type 0 where
  pub item_count : ℕ
  pub batch_count : ℕ
  pub peak_in_flight : ℕ
  pub placement_submissions : ℕ

-- What polling a future of the type `F` gives: `pending` with the future after it.
pub data Polled (F U : Type 0) : Type 0 where
  pending : F → Polled F U
  failed : RuntimeError → Polled F U
  finished : BatchReply U → Polled F U

-- `PmapFuture`, a slot being its future, with the state `W` around it.
pub record PmapFuture (A U W F : Type 0) : Type 0 where
  pub pending : List (ℕ × List A)
  pub slots : List F
  pub options : PmapOptions
  pub outputs : List (Option U)
  pub first_error : Option (ℕ × String)
  pub stats : ControllerStats
  pub done : Bool
  pub world : W

module _ {X : Type 0} where
  abbrev pub init : List X → List X
  init [] = []
  init (x ∷ []) = []
  init (x ∷ y ∷ xs) = x ∷ init (y ∷ xs)

  abbrev pub last : X → List X → X
  last x [] = x
  last x (y ∷ xs) = last y xs

  -- `Vec::swap_remove`: the last element takes the place of the one at `i`.
  unfoldable pub swap_remove : List X → ℕ → List X
  swap_remove [] i = []
  swap_remove (x ∷ xs) i = init (set (x ∷ xs) i (last x xs))

abbrev pub is_some : {X : Type 0} → Option X → Bool
is_some none = false
is_some (some x) = true

-- `max`
abbrev pub larger : ℕ → ℕ → ℕ
larger a b = if ltb a b then b else a

-- `is_none_or(|(old, _)| index < *old)`
abbrev pub is_first : ℕ → Option (ℕ × String) → Bool
is_first index none = true
is_first index (some (old, message)) = ltb index old

-- The batches of a list from the position `start`; the first argument bounds the rounds.
unfoldable pub chunks : {A : Type 0} → ℕ → ℕ → ℕ → List A → List (ℕ × List A)
chunks zero size start items = []
chunks (suc n) size start [] = []
chunks (suc n) size start (x ∷ xs) =
    let chunk = take size (x ∷ xs) in
    (start, chunk) ∷ chunks n size (start + length chunk) (drop size (x ∷ xs))

abbrev pub Step : (A U W F : Type 0) → Type 0 → Type 0
Step A U W F X = Action (PmapFuture A U W F) AlgorithmError X

-- `value.take().ok_or(..)` over the outputs.
unfoldable pub collect_outputs : {U : Type 0} → List (Option U) → Result AlgorithmError (List U)
collect_outputs [] = ok []
collect_outputs (none ∷ outputs) = err (AlgorithmError.protocol "missing batch result")
collect_outputs (some v ∷ outputs) = Fallible.◌>>=◌ (collect_outputs outputs) λ vs. ok (v ∷ vs)

module _ {A U W F : Type 0} where
  unfoldable pub build : List A → PmapOptions → W → Result AlgorithmError (PmapFuture A U W F)
  unfolding chunks
  build items options world = Fallible.◌>>=◌ (validate_options options) λ _.
      let pending = chunks (length items) options.batch_size 0 items in
      ok (record {
        pending = pending;
        slots = [];
        options = options;
        outputs = replicate (length items) none;
        first_error = none;
        stats = record {
          item_count = length items;
          batch_count = length pending;
          peak_in_flight = 0;
          placement_submissions = 0;
        };
        done = false;
        world = world;
      })

  -- `pmap` over as many places, `pmap_at` with one: what starts the batches at the places is the
  -- `submit` of the polls.
  unfoldable pub pmap : ℕ → PmapOptions → List A → W → Result AlgorithmError (PmapFuture A U W F)
  unfolding build
  pmap targets options items world =
      Fallible.◌>>=◌ (with_targets targets options) λ bounded. build items bounded world

  abbrev pub pmap_at : PmapOptions → List A → W → Result AlgorithmError (PmapFuture A U W F)
  pmap_at options items world = pmap 1 options items world

  -- `this.done = true; return Poll::Ready(Err(..))`
  abbrev pub stop : {X : Type 0} → AlgorithmError → Step A U W F X
  stop e = modify (λ t. record t { done = true }) >> fail e

  -- A value for the slot of the outputs that was found.
  abbrev pub absorb_value : ℕ → U → Option (Option U) → Step A U W F (Unit {0})
  absorb_value index v none = stop (AlgorithmError.protocol "invalid batch result index")
  absorb_value index v (some (some u)) = stop (AlgorithmError.protocol "invalid batch result index")
  absorb_value index v (some none) =
      modify (λ s. record s { outputs = set s.outputs index (some v) })

  -- One item of a reply, at its index.
  unfoldable pub absorb_item : ℕ → ItemReply U → Step A U W F (Unit {0})
  absorb_item index (ItemReply.item_ok v) = do
    t ← get
    absorb_value index v (get_elem? t.outputs index)
  absorb_item index (ItemReply.item_err message) = modify λ t.
      if is_first index t.first_error then record t { first_error = some (index, message) } else t

  -- The loop over a reply's items; `reply.start + offset` panics if it passes 64 bits.
  unfoldable pub absorb : ℕ → List (ItemReply U) → Step A U W F (Unit {0})
  absorb index [] = pure tt
  absorb index (item ∷ items) =
      if ltb index (2 ^ 64)
      then (absorb_item index item >> absorb (index + 1) items)
      else read (λ _. panic)

  -- The end of a poll whose batches have all replied. The outputs that `take` empties are not read
  -- again.
  unfoldable pub finish_with : Option (ℕ × String) → Step A U W F (List U × ControllerStats)
  unfolding collect_outputs
  finish_with (some (index, message)) =
      modify (λ t. record t { done = true; first_error = none })
      >> fail (AlgorithmError.callback index message)
  finish_with none = do
    modify (λ t. record t { done = true })
    out ← read (λ t. collect_outputs t.outputs)
    t ← get
    pure (out, t.stats)

  module _ (submit : BatchAction A → W → Result RuntimeError F × W)
      (poll_future : F → W → Polled F U × W) where
    -- `(this.submit)(action)`
    unfoldable pub start_batch : ℕ → List A → Result RuntimeError F × W → Step A U W F (Unit {0})
    start_batch start items (ok future, world) = modify λ t. record t {
      world = world;
      slots = t.slots ++ future ∷ [];
      stats = record t.stats {
        peak_in_flight = larger t.stats.peak_in_flight (length (t.slots ++ future ∷ []));
        placement_submissions = t.stats.placement_submissions + 1;
      };
    }
    start_batch start items (err e, world) =
        modify (λ t. record t { world = world }) >> stop (AlgorithmError.runtime e)
    start_batch start items (panic, world) = read (λ _. panic)

    unfoldable pub fill_from : List (ℕ × List A) → Step A U W F (Unit {0})
    fill_from [] = pure tt
    fill_from ((start, items) ∷ rest) = do
      t ← get
      if ltb (length t.slots) t.options.inflight_limit
          then (do
            modify (λ s. record s { pending = rest })
            start_batch start items (
                submit (record { start = start; mode = t.options.local_mode; items = items })
                  t.world)
            fill_from rest)
          else pure tt

    unfoldable pub fill : Step A U W F (Unit {0})
    unfolding fill_from
    fill = do t ← get; fill_from t.pending

    -- What the loop over the slots does with a slot that was polled; `next` is the rest of the loop.
    abbrev pub on_polled :
        ℕ → Bool → (ℕ → Bool → Step A U W F Bool) → Polled F U → Step A U W F Bool
    on_polled i progress next (Polled.pending future) =
        modify (λ s. record s { slots = set s.slots i future }) >> next (i + 1) progress
    on_polled i progress next (Polled.failed e) = stop (AlgorithmError.runtime e)
    on_polled i progress next (Polled.finished reply) =
        modify (λ s. record s { slots = swap_remove s.slots i })
        >> absorb reply.start reply.items
        >> next i true

    -- The loop over the slots from the position `i`: the first argument counts the slots behind it.
    unfoldable pub scan : ℕ → ℕ → Bool → Step A U W F Bool
    scan zero i progress = pure progress
    scan (suc n) i progress = do
      t ← get
      future ← expect (get_elem? t.slots i)
      modify (λ s. record s { world = (poll_future future t.world).1 })
      on_polled i progress (λ j moved. scan n j moved) (poll_future future t.world).0

    -- The rounds of a poll: `none` if they are too few, `some none` for `Poll::Pending`.
    unfoldable pub rounds : ℕ → Step A U W F (Option (Option (List U × ControllerStats)))
    rounds zero = pure none
    rounds (suc n) = do
      fill
      before ← get
      progress ← scan (length before.slots) 0 false
      t ← get
      if is_empty t.pending && is_empty t.slots
          then (do out ← finish_with t.first_error; pure (some (some out)))
          else if not progress
          then pure (some none)
          else rounds n

    -- Enough rounds for the batches that are left.
    unfoldable pub poll : Step A U W F (Option (Option (List U × ControllerStats)))
    unfolding rounds
    poll = do t ← get; rounds (length t.pending + length t.slots + 1)
