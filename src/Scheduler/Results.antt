-- ===== src/Scheduler/Results.antt =====
-- src/scheduler.rs: what a finished coordinator returns.
use hataori_rs.Prelude.{
  ℕ, suc, ◌^◌, ◌≤◌, ◌<◌, ◌≡◌, refl, Bool, true, false, Option, none, some, List, [], ◌∷◌, arith, ok,
  length, map, All,
}
use hataori_rs.Prelude.Int.{ℤ}
use hataori_rs.Prelude.Assoc.{total}
use hataori_rs.Scheduler.State.{LaneState, Coordinator}
use hataori_rs.Scheduler.Ends.{new_with_prefetch, is_finished, into_results, collect, all_drained}
use hataori_rs.Scheduler.Places.{below, held, filled}
use hataori_rs.Scheduler.Invariant.{Inv}
use hataori_rs.Scheduler.Calls.{
  Call, root_batch, remote_ready, root_success, remote_success, root_error, remote_error,
  remote_protocol_error, remote_drain, perform, run, run-Inv,
}
use hataori_rs.Scheduler.Values.{
  Slots, Faithful, HonestCall, on_remote_ready-Faithful, next_root_batch-Faithful,
  on_remote_drain-Faithful, on_root_error-Faithful, on_remote_error-Faithful,
  on_remote_protocol_error-Faithful, on_root_success-Faithful, on_remote_success-Faithful,
}
use hataori_rs.Scheduler.Start.{new_with_prefetch-Inv, new_with_prefetch-Faithful}

drained_holds :
    (i : ℕ) (remotes : List (ℤ × LaneState))
    → all_drained remotes ≡ true
    → total (held i) remotes ≡ 0
unfolding all_drained
drained_holds i [] h = refl
drained_holds i ((rank, state) ∷ remotes) h = ground (arith, drained_holds i remotes)

module _ {T U : Type 0} (f : T → U) where
  collect-map :
      (items : List T) (ordered : List (Option U))
      → Slots f items ordered
      → ((i : ℕ) → below (length ordered) i ≤ filled i ordered)
      → collect ordered ≡ ok (map f items)
  unfolding collect
  collect-map [] [] s h = refl
  collect-map [] (o ∷ ordered) s h = absurd s
  collect-map (x ∷ items) [] s h = absurd s
  collect-map (x ∷ items) (none ∷ ordered) s h = absurd (ground (arith, h 0))
  collect-map (x ∷ items) (some u ∷ ordered) s h =
      ground (arith, s.0, collect-map items ordered s.1 (λ i. ground (arith, h (suc i))))

  -- A well-formed coordinator that has finished without failing holds all the results.
  into_results-map :
      (items : List T) (c : Coordinator T U)
      → Inv c
      → Faithful f items c
      → c.failed ≡ false
      → is_finished c ≡ true
      → into_results c ≡ ok (map f items)
  unfolding into_results is_finished
  into_results-map items c v w good over = ground (
    arith,
    collect-map items c.ordered w.slots
        (λ i. ground (arith, v.kept good i, v.stopped_empty, drained_holds i c.remotes)),
  )

  perform-Faithful :
      (items : List T) (c : Coordinator T U) (call : Call U)
      → HonestCall f items call
      → Faithful f items c
      → Faithful f items (perform call c).1
  unfolding perform
  perform-Faithful items c root_batch h w = ground (arith, next_root_batch-Faithful f items c w)
  perform-Faithful items c (remote_ready rank) h w =
      ground (arith, on_remote_ready-Faithful f items c w rank)
  perform-Faithful items c (root_success id results) h w =
      ground (arith, on_root_success-Faithful f items c w results h id)
  perform-Faithful items c (remote_success rank id results) h w =
      ground (arith, on_remote_success-Faithful f items c w results h rank id)
  perform-Faithful items c (root_error id) h w =
      ground (arith, on_root_error-Faithful f items c w id)
  perform-Faithful items c (remote_error rank id) h w =
      ground (arith, on_remote_error-Faithful f items c w rank id)
  perform-Faithful items c (remote_protocol_error rank) h w =
      ground (arith, on_remote_protocol_error-Faithful f items c w rank)
  perform-Faithful items c (remote_drain rank) h w =
      ground (arith, on_remote_drain-Faithful f items c w rank)

  run-Faithful :
      (items : List T) (calls : List (Call U)) (c : Coordinator T U)
      → All (HonestCall f items) calls
      → Faithful f items c
      → Faithful f items (run calls c)
  unfolding run
  run-Faithful items [] c h w = w
  run-Faithful items (call ∷ calls) c h w =
      run-Faithful items calls (perform call c).1 h.1 (perform-Faithful items c call h.0 w)

  -- Over fewer than 2 ^ 64 items and with a positive batch size: however the calls are ordered,
  -- whatever ranks and batch ids they name, if each reported value is what `f` gives for the item
  -- of its index, a run that has finished and not failed returns the list of `f` of the inputs, in
  -- input order.
  pub run-into_results :
      (root_rank : ℤ) (ranks : List ℤ) (items : List T) (batch_size : ℕ) (prefetch : Bool)
      (c : Coordinator T U) (calls : List (Call U))
      → length items < 2 ^ 64
      → 0 < batch_size
      → new_with_prefetch root_rank ranks items batch_size prefetch ≡ ok c
      → All (HonestCall f items) calls
      → (run calls c).failed ≡ false
      → is_finished (run calls c) ≡ true
      → into_results (run calls c) ≡ ok (map f items)
  run-into_results root_rank ranks items batch_size prefetch c calls fits positive made honest good
        over =
      into_results-map items (run calls c)
        (run-Inv c calls
          (new_with_prefetch-Inv root_rank ranks items batch_size prefetch c fits positive made))
        (run-Faithful items calls c honest
          (new_with_prefetch-Faithful root_rank ranks items batch_size prefetch f c fits made))
        good over
