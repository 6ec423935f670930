-- ===== src/Algorithms/Running.antt =====
-- crates/hataori-algorithms/src/batch.rs: a parallel map from `build` over its polls to its answer.
use hataori_rs.Prelude.{
  ℕ, ◌+◌, ◌^◌, ◌≤◌, ◌<◌, ◌≡◌, refl, sym, ◌∙◌, ap, false, List, [], Option, none, some, Result, ok,
  err, panic, length, replicate, length-replicate, get_elem?, get_elem?-replicate, arith,
  Result-cases, lt-get_elem?, subst, inl, inr,
}
use hataori_rs.Runtime.Errors.{RuntimeError}
use hataori_rs.Algorithms.{PmapOptions, validate_options, with_targets}
use hataori_rs.Algorithms.Controller.{
  BatchAction, ItemReply, Polled, PmapFuture, ControllerStats, build, pmap, chunks, poll,
}
use hataori_rs.Algorithms.Absorb.{covers, Tracks}
use hataori_rs.Algorithms.Expected.{map_items}
use hataori_rs.Algorithms.Filling.{Leads, Leads-map, Serves, Inv, owed, left}
use hataori_rs.Algorithms.Batches.{covers-chunks, chunks-IsBatch, whole-Segment}
use hataori_rs.Algorithms.Rounds.{Reported, Gives, rounds-Gives}

valid-sized : (o : PmapOptions) → validate_options o ≡ ok tt → 0 < o.batch_size
unfolding validate_options
valid-sized o e = ground arith

limited-room :
    (targets : ℕ) (options o : PmapOptions)
    → with_targets targets options ≡ ok o
    → 0 < o.inflight_limit
unfolding with_targets
limited-room targets options o e = ground arith

pub one_value : {E X : Type 0} (r : Result E X) (x y : X) → r ≡ ok x → r ≡ ok y → x ≡ y
one_value r x y e e' = cc

module _ {A U W F : Type 0} (g : A → ItemReply U) (items : List A)
    (action_of : F → ℕ × List A) where
  abbrev first_state : PmapOptions → W → PmapFuture A U W F
  first_state options world =
      let pending = chunks (length items) options.batch_size 0 items in
      record {
        pending = pending;
        slots = [];
        options = options;
        outputs = replicate (length items) none;
        first_error = none;
        stats = record {
          item_count = length items;
          batch_count = length pending;
          peak_in_flight = 0;
          placement_submissions = 0;
        };
        done = false;
        world = world;
      }

  first-Tracks :
      (options : PmapOptions) (world : W)
      → 0 < options.batch_size
      → Tracks g items
          (owed g items action_of (first_state options world))
          (replicate (length items) none)
          none
  first-Tracks options world some_ =
      let all : (i : ℕ)
          → owed g items action_of (first_state options world) i ≡ covers i (0, items) =
        λ i.
          omega (
            arith,
            covers-chunks (length items) options.batch_size i 0 items some_ (omega arith),
          ) in
      record {
        sized = length-replicate (length items) none;
        once = λ i. rw (all i) (ground arith);
        open_ = λ i inside more. get_elem?-replicate (length items) i none inside;
        settled = λ i x e paid. absurd (ground (arith, all i, lt-get_elem? items i x e));
        lowest = tt;
      }

  first-Inv :
      (options : PmapOptions) (world : W)
      → 0 < options.batch_size
      → 0 < options.inflight_limit
      → Inv g items action_of (first_state options world)
  first-Inv options world some_ room = record {
    tracks = first-Tracks options world some_;
    pending_at =
        chunks-IsBatch g items (length items) options.batch_size 0 items
          (whole-Segment g items 0 items λ i. ap (get_elem? items) (omega arith));
    slots_at = tt;
    bounded = omega arith;
    room = room;
  }

  build-Inv :
      (options : PmapOptions) (world : W) (t : PmapFuture A U W F)
      → build items options world ≡ ok t
      → 0 < options.inflight_limit
      → Inv g items action_of t
  unfolding build
  build-Inv options world t e room = elim (Result-cases (validate_options options)) [
    | inl (u, valid) ↦
        let same : build {U = U} {F = F} items options world ≡ ok (first_state options world) =
          rw valid refl in
        subst (Inv g items action_of)
          (one_value (build items options world) (first_state options world) t same e)
          (first-Inv options world (valid-sized options valid) room)
    | inr (inl (x, bad)) ↦
        absurd (let same : build {U = U} {F = F} items options world ≡ err x = rw bad refl in cc)
    | inr (inr bad) ↦
        absurd (let same : build {U = U} {F = F} items options world ≡ panic = rw bad refl in cc)
  ]

  -- A map that `pmap` starts owes every item once, in batches that stand at their place among the
  -- items, and has room for a batch.
  pub pmap-Inv :
      (targets : ℕ) (options : PmapOptions) (world : W) (t : PmapFuture A U W F)
      → pmap targets options items world ≡ ok t
      → Inv g items action_of t
  unfolding pmap with_targets
  pmap-Inv targets options world t e = elim (Result-cases (with_targets targets options)) [
    | inl (o, limited) ↦
        let started : build {U = U} {F = F} items o world ≡ ok t = sym (rw limited refl) ∙ e in
        build-Inv o world t started (limited-room targets options o limited)
    | inr (inl (x, bad)) ↦
        absurd
          (let same : pmap {U = U} {F = F} targets options items world ≡ err x = rw bad refl in cc)
    | inr (inr bad) ↦
        absurd
          (let same : pmap {U = U} {F = F} targets options items world ≡ panic = rw bad refl in cc)
  ]

  -- What a poll gives: outputs, or a wait for a batch that is in flight. `none` would be a poll that
  -- its rounds did not end.
  abbrev pub Returns : Option (Option (List U × ControllerStats)) → PmapFuture A U W F → Type 0
  Returns none s = ⊥
  Returns (some none) s = (0 < length s.slots) × (length s.slots ≤ s.options.inflight_limit)
  Returns (some (some out)) s = map_items g 0 items ≡ ok out.0

  module _ (submit : BatchAction A → W → Result RuntimeError F × W)
      (poll_future : F → W → Polled F U × W) where
    -- The states of a map between its polls.
    pub data Polls (t : PmapFuture A U W F) : PmapFuture A U W F → Type 0 where
      first : Polls t t
      again :
          (s u : PmapFuture A U W F)
          → Polls t s
          → poll submit poll_future s ≡ (ok (some none), u)
          → Polls t u

    module _ (serves : Serves g submit poll_future action_of) (fits : length items < 2 ^ 64) where
      poll-Gives :
          (t : PmapFuture A U W F)
          → Inv g items action_of t
          → Leads
              (Reported g items)
              (Gives g items action_of (left g items action_of t + 1) (left g items action_of t))
              (poll submit poll_future t)
      unfolding poll
      poll-Gives t v =
          rounds-Gives g items action_of submit poll_future serves fits
            (left g items action_of t + 1) t v

      Polls-Inv :
          (t s : PmapFuture A U W F) → Inv g items action_of t → Polls t s → Inv g items action_of s
      Polls-Inv t _ v first = v
      Polls-Inv t u v (again s _ p e) =
          let w = poll-Gives s (Polls-Inv t s v p) in
          (subst
            (Leads (Reported g items)
              (Gives g items action_of (left g items action_of s + 1) (left g items action_of s)))
            e w).0

      as_answer :
          (n : ℕ) (o : Option (Option (List U × ControllerStats))) (s : PmapFuture A U W F)
          → Gives g items action_of (n + 1) n o s
          → Returns o s
      as_answer n none s h = omega arith
      as_answer n (some none) s h = (h.1, h.0.bounded)
      as_answer n (some (some out)) s h = h

      -- If the batches of a map from `pmap` are served as `Serves` says, and its items are fewer than
      -- `2 ^ 64`, then every poll ends without a panic. It gives the outputs of `map_items`, or waits
      -- with a batch in flight and no more than the limit, or fails, with an error of the runtime or
      -- with the error of `map_items`.
      pub pmap-poll :
          (targets : ℕ) (options : PmapOptions) (world : W) (t s : PmapFuture A U W F)
          → pmap targets options items world ≡ ok t
          → Polls t s
          → Leads (Reported g items) Returns (poll submit poll_future s)
      pmap-poll targets options world t s e p =
          let v = Polls-Inv t s (pmap-Inv targets options world t e) p in
          Leads-map (Reported g items) _ Returns (poll submit poll_future s)
            (as_answer (left g items action_of s)) (poll-Gives s v)
