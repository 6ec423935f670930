-- ===== src/Algorithms/Tests.antt =====
-- Runs of a parallel map whose batches take two polls each.
use hataori_rs.Prelude.{
  ℕ, ◌+◌, ◌≡◌, refl, subst, arith, false, List, [], ◌∷◌, map, none, some, Result, ok, ltb,
  if◌then◌else◌,
}
use hataori_rs.Runtime.Errors.{RuntimeError}
use hataori_rs.Algorithms.{LocalMode, PmapOptions, with_targets, validate_options}
use hataori_rs.Algorithms.Controller.{
  BatchAction, ItemReply, BatchReply, Polled, PmapFuture, ControllerStats, pmap, poll, rounds, fill,
  fill_from, start_batch, scan, absorb, absorb_item, finish_with, collect_outputs, build, chunks,
  swap_remove,
}
use hataori_rs.Algorithms.Filling.{Leads, Serves, Inv}
use hataori_rs.Algorithms.Rounds.{Reported}
use hataori_rs.Algorithms.Running.{Polls, Returns, one_value, pmap-Inv, pmap-poll}

-- A future that waits is ready at its next poll.
data Future : Type 0 where
  waiting ready : ℕ → List ℕ → Future

abbrev handler : ℕ → ItemReply ℕ
handler n = if ltb n 100 then ItemReply.item_ok (n + 1) else ItemReply.item_err "too large"

abbrev submit : BatchAction ℕ → ℕ → Result RuntimeError Future × ℕ
submit a w = (ok (Future.waiting a.start a.items), w + 1)

abbrev poll_future : Future → ℕ → Polled Future ℕ × ℕ
poll_future (Future.waiting start items) w = (Polled.pending (Future.ready start items), w)
poll_future (Future.ready start items) w =
    (Polled.finished (record { start = start; items = map handler items }), w)

abbrev action_of : Future → ℕ × List ℕ
action_of (Future.waiting start items) = (start, items)
action_of (Future.ready start items) = (start, items)

serves : Serves handler submit poll_future action_of
serves = record {
  submits = λ a w f e.
      subst (λ f. action_of f ≡ (a.start, a.items))
        (one_value (submit a w).0 (Future.waiting a.start a.items) f refl e) refl;
  returns = λ a w e. cc;
  waits = waits_on;
  replies = replies;
}
  where
    waits_on :
        (f next : Future) (w : ℕ)
        → (poll_future f w).0 ≡ Polled.pending next
        → action_of next ≡ action_of f
    waits_on (Future.waiting start items) next w e =
        subst (λ f. action_of f ≡ (start, items))
          (polled_pending (poll_future (Future.waiting start items) w).0 (Future.ready start items)
            next refl e)
          refl
      where
        polled_pending :
            (p : Polled Future ℕ) (f f' : Future)
            → p ≡ Polled.pending f
            → p ≡ Polled.pending f'
            → f ≡ f'
        polled_pending p f f' e e' = cc
    waits_on (Future.ready start items) next w e = absurd cc

    replies :
        (f : Future) (w : ℕ) (r : BatchReply ℕ)
        → (poll_future f w).0 ≡ Polled.finished r
        → (r.start ≡ (action_of f).0) × (r.items ≡ map handler (action_of f).1)
    replies (Future.waiting start items) w r e = absurd cc
    replies (Future.ready start items) w r e =
        subst (λ r. (r.start ≡ start) × (r.items ≡ map handler items))
          (polled_finished (poll_future (Future.ready start items) w).0
            (record { start = start; items = map handler items }) r refl e)
          (refl, refl)
      where
        polled_finished :
            (p : Polled Future ℕ) (r r' : BatchReply ℕ)
            → p ≡ Polled.finished r
            → p ≡ Polled.finished r'
            → r ≡ r'
        polled_finished p r r' e e' = cc

abbrev three : PmapOptions
three = record {
  batch_size = 2;
  local_mode = LocalMode.sequential;
  prefetch = false;
  deadline = 30;
  domain = 0;
  inflight_limit = 0;
}

abbrev numbers : List ℕ
numbers = 5 ∷ 6 ∷ 7 ∷ []

-- Two batches, one at a time.
abbrev start : PmapFuture ℕ ℕ ℕ Future
start = record {
  pending = (0, 5 ∷ 6 ∷ []) ∷ (2, 7 ∷ []) ∷ [];
  slots = [];
  options = record three { inflight_limit = 1 };
  outputs = none ∷ none ∷ none ∷ [];
  first_error = none;
  stats = record { item_count = 3; batch_count = 2; peak_in_flight = 0; placement_submissions = 0 };
  done = false;
  world = 0;
}

started : pmap 1 three numbers 0 ≡ ok start
unfolding pmap build chunks with_targets validate_options
started = refl

abbrev waited : PmapFuture ℕ ℕ ℕ Future
waited = (poll submit poll_future start).1

poll_first : poll submit poll_future start ≡ (ok (some none), waited)
unfolding poll rounds fill fill_from start_batch scan absorb absorb_item finish_with collect_outputs
poll_first = refl

abbrev second : PmapFuture ℕ ℕ ℕ Future
second = (poll submit poll_future waited).1

poll_next : poll submit poll_future waited ≡ (ok (some none), second)
unfolding poll rounds fill fill_from start_batch scan absorb absorb_item finish_with collect_outputs
    swap_remove
poll_next = refl

poll_last :
    (stats : ControllerStats) × ((poll submit poll_future second).0
      ≡ ok (some (some (6 ∷ 7 ∷ 8 ∷ [], stats))))
unfolding poll rounds fill fill_from start_batch scan absorb absorb_item finish_with collect_outputs
    swap_remove
poll_last = (_, refl)

pmap-Inv_example : Inv handler numbers action_of start
pmap-Inv_example = pmap-Inv handler numbers action_of 1 three 0 start started

pmap-poll_example :
    Leads
      (Reported handler numbers)
      (Returns handler numbers action_of)
      (poll submit poll_future second)
pmap-poll_example =
    pmap-poll handler numbers action_of submit poll_future serves (omega arith) 1 three 0 start
      second started
      (Polls.again waited second (Polls.again start waited Polls.first poll_first) poll_next)
