-- ===== src/Algorithms/Polling.antt =====
-- crates/hataori-algorithms/src/batch.rs: what the controller keeps while it polls its slots.
use hataori_rs.Prelude.{
  ℕ, ◌+◌, ◌^◌, ◌<◌, ◌≡◌, refl, sym, ap, subst, ◌⊎◌, List, map, some, Result, ok, length, get_elem?,
  set, arith, inl, inr, length-set,
}
use hataori_rs.Runtime.Errors.{RuntimeError}
use hataori_rs.Algorithms.{AlgorithmError}
use hataori_rs.Algorithms.Controller.{
  BatchAction, BatchReply, ItemReply, Polled, PmapFuture, swap_remove, absorb,
}
use hataori_rs.Algorithms.Absorb.{covers}
use hataori_rs.Algorithms.Absorbing.{absorb-Tracks}
use hataori_rs.Algorithms.Slots.{
  sum_of-set, All-set, All-get, sum_of-swap_remove, All-swap_remove, length-swap_remove,
}
use hataori_rs.Algorithms.Filling.{Serves, Inv, IsBatch, owed, retrack}

pub polled_cases :
    {F U : Type 0} (p : Polled F U)
    → ((f : F) × (p ≡ Polled.pending f))
      ⊎ ((e : RuntimeError) × (p ≡ Polled.failed e))
      ⊎ ((r : BatchReply U) × (p ≡ Polled.finished r))
polled_cases (Polled.pending f) = inl (f, refl)
polled_cases (Polled.failed e) = inr (inl (e, refl))
polled_cases (Polled.finished r) = inr (inr (r, refl))

module _ {A U W F : Type 0} (g : A → ItemReply U) (items : List A) (action_of : F → ℕ × List A)
    (submit : BatchAction A → W → Result RuntimeError F × W) (poll_future : F → W → Polled F U × W)
    (serves : Serves g submit poll_future action_of) (fits : length items < 2 ^ 64)
    (Q : AlgorithmError → Type 0)
    (allowed : (e : RuntimeError) → Q (AlgorithmError.runtime e)) where
  -- A slot's future waits on: the slot keeps its batch.
  pub waiting :
      (t : PmapFuture A U W F) (i : ℕ) (f next : F) (w : W)
      → Inv g items action_of t
      → get_elem? t.slots i ≡ some f
      → action_of next ≡ action_of f
      → Inv g items action_of (record t { slots = set t.slots i next; world = w })
  waiting t i f next w v here same =
      let s : PmapFuture A U W F = record t { slots = set t.slots i next; world = w } in
      let each : (k : ℕ) → owed g items action_of t k ≡ owed g items action_of s k = λ k.
        let swapped = sum_of-set (λ f. covers k (action_of f)) t.slots i f next here in
        omega (arith, swapped, ap (covers k) same) in
      record {
        tracks =
            retrack g items action_of (owed g items action_of t) (owed g items action_of s) t each
              v.tracks;
        pending_at = v.pending_at;
        slots_at =
            All-set (λ f. IsBatch g items (action_of f)) t.slots i next v.slots_at
              (subst (IsBatch g items) (sym same)
                (All-get (λ f. IsBatch g items (action_of f)) t.slots i f v.slots_at here));
        bounded = omega (arith, v.bounded, length-set t.slots i next);
        room = v.room;
      }

  -- A slot's batch has replied: the slot is gone, and the reply is in the outputs.
  pub replied :
      (t : PmapFuture A U W F) (i : ℕ) (f : F) (w : W)
      → Inv g items action_of t
      → get_elem? t.slots i ≡ some f
      → (s : PmapFuture A U W F) × (absorb
            (action_of f).0
            (map g (action_of f).1)
            (record t { slots = swap_remove t.slots i; world = w })
          ≡ (ok tt, s))
        × Inv g items action_of s
        × (s.pending ≡ t.pending)
        × (length s.slots + 1 ≡ length t.slots)
  replied t i f w v here =
      let u : PmapFuture A U W F = record t { slots = swap_remove t.slots i; world = w } in
      let batch = All-get (λ f. IsBatch g items (action_of f)) t.slots i f v.slots_at here in
      let (outputs, first, e, tracks) =
        absorb-Tracks g items fits (owed g items action_of t) (owed g items action_of u)
          (action_of f).0 (action_of f).1 u v.tracks batch
          (λ k. omega (arith, sum_of-swap_remove (λ f. covers k (action_of f)) t.slots i f here)) in
      let shorter = length-swap_remove t.slots i f here in
      (
        record u { outputs = outputs; first_error = first },
        e,
        record {
          tracks = tracks;
          pending_at = v.pending_at;
          slots_at = All-swap_remove (λ f. IsBatch g items (action_of f)) t.slots i v.slots_at;
          bounded = omega (arith, v.bounded, shorter);
          room = v.room;
        },
        refl,
        shorter,
      )
