-- ===== src/Algorithms/Ready/Tests.antt =====
-- A parallel map whose batches are ready when they are polled.
use hataori_rs.Prelude.{
  ℕ, ◌+◌, ◌≡◌, refl, subst, arith, true, false, List, [], ◌∷◌, map, none, Result, ok, ltb,
  if◌then◌else◌,
}
use hataori_rs.Runtime.Errors.{RuntimeError}
use hataori_rs.Algorithms.{LocalMode, PmapOptions, with_targets, validate_options}
use hataori_rs.Algorithms.Controller.{
  BatchAction, ItemReply, BatchReply, Polled, PmapFuture, pmap, build, chunks, poll,
}
use hataori_rs.Algorithms.Filling.{Leads, Serves}
use hataori_rs.Algorithms.Rounds.{Reported}
use hataori_rs.Algorithms.Running.{one_value}
use hataori_rs.Algorithms.Ready.{Mapped, pmap-ready}

abbrev even_only : ℕ → ItemReply ℕ
even_only n = if ltb n 6 then ItemReply.item_ok (n + n) else ItemReply.item_err "too large"

abbrev start_now : BatchAction ℕ → ℕ → Result RuntimeError (ℕ × List ℕ) × ℕ
start_now a w = (ok (a.start, a.items), w + 1)

abbrev reply_now : ℕ × List ℕ → ℕ → Polled (ℕ × List ℕ) ℕ × ℕ
reply_now (start, items) w =
    (Polled.finished (record { start = start; items = map even_only items }), w)

serves_now : Serves even_only start_now reply_now (λ f. f)
serves_now = record {
  submits = λ a w f e.
      subst (λ f. f ≡ (a.start, a.items)) (one_value (start_now a w).0 (a.start, a.items) f refl e)
        refl;
  returns = λ a w e. cc;
  waits = λ f next w e. absurd cc;
  replies = λ f w r e.
      subst (λ r. (r.start ≡ f.0) × (r.items ≡ map even_only f.1))
        (finished_same (reply_now f w).0 (record { start = f.0; items = map even_only f.1 }) r refl
          e)
        (refl, refl);
}
  where
    finished_same :
        (p : Polled (ℕ × List ℕ) ℕ) (r r' : BatchReply ℕ)
        → p ≡ Polled.finished r
        → p ≡ Polled.finished r'
        → r ≡ r'
    finished_same p r r' e e' = cc

abbrev four : PmapOptions
four = record {
  batch_size = 3;
  local_mode = LocalMode.sequential;
  prefetch = true;
  deadline = 30;
  domain = 0;
  inflight_limit = 0;
}

abbrev four_numbers : List ℕ
four_numbers = 1 ∷ 9 ∷ 3 ∷ 8 ∷ []

abbrev map_of_four : PmapFuture ℕ ℕ ℕ (ℕ × List ℕ)
map_of_four = record {
  pending = (0, 1 ∷ 9 ∷ 3 ∷ []) ∷ (3, 8 ∷ []) ∷ [];
  slots = [];
  options = record four { inflight_limit = 2 };
  outputs = none ∷ none ∷ none ∷ none ∷ [];
  first_error = none;
  stats = record { item_count = 4; batch_count = 2; peak_in_flight = 0; placement_submissions = 0 };
  done = false;
  world = 0;
}

four_started : pmap 1 four four_numbers 0 ≡ ok map_of_four
unfolding pmap build chunks with_targets validate_options
four_started = refl

pmap-ready_example :
    Leads
      (Reported even_only four_numbers)
      (Mapped even_only four_numbers)
      (poll start_now reply_now map_of_four)
pmap-ready_example =
    pmap-ready even_only four_numbers (λ f. f) start_now reply_now serves_now (omega arith)
      (λ f next w e. absurd cc) 1 four 0 map_of_four four_started
