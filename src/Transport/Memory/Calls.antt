-- ===== src/Transport/Memory/Calls.antt =====
-- crates/hataori-runtime-foundation/src/memory.rs: the calls of the handles and drivers of a network, in
-- any order.
use hataori_rs.Prelude.{
  ℕ, zero, suc, ◌^◌, ◌<◌, ◌≡◌, refl, sym, ◌∙◌, ap, subst, some, List, [], Result, ok, err, panic,
  eqb, length, length-replicate, replicate, get_elem?, arith, inl, inr, Bool-cases, Result-cases,
}
use hataori_rs.Protocol.Ids.{RunId}
use hataori_rs.Protocol.Limits.{ProtocolLimits, validate_limits}
use hataori_rs.Transport.{TransportError}
use hataori_rs.Transport.Memory.{State, MemoryFault, new_node}
use hataori_rs.Transport.Memory.Driving.{build}
use hataori_rs.Transport.Memory.Waiting.{NetworkStep, caller, network_step, network_steps}
use hataori_rs.Transport.Memory.Ledger.{NodeOk, NodeOk-empty, Inv}
use hataori_rs.Transport.Memory.Stepping.{Settled, network_step-Settled, network_steps-Inv}
use hataori_rs.Transport.Memory.Flushing.{AreCalled}

same_value : {X : Type 0} (n d : ℕ) (a x : X) → get_elem? (replicate n a) d ≡ some x → a ≡ x
same_value zero d a x e = absurd cc
same_value (suc n) zero a x e = cc
same_value (suc n) (suc d) a x e = same_value n d a x e

one_result : {E X : Type 0} (r : Result E X) (x y : X) → r ≡ ok x → r ≡ ok y → x ≡ y
one_result r x y e e' = cc

-- A network is built with accounts that hold, if its limits have 64 bits.
pub build-Inv :
    (count : ℕ) (run_id : RunId) (limits : ProtocolLimits) (faults : List MemoryFault) (s : State)
    → build count run_id limits faults ≡ ok s
    → limits.max_queued_parcels_per_peer < 2 ^ 64
    → limits.max_inflight_bytes_per_peer < 2 ^ 64
    → Inv s × (length s.nodes ≡ count)
unfolding build
build-Inv count run_id limits faults s e h1 h2 =
    let r : State = record {
      run_id = run_id;
      limits = limits;
      tick = 0;
      next_ticket = 1;
      faults = faults;
      delayed = [];
      nodes = replicate count new_node;
    } in
    let v : Inv r = record {
      holds = record {
        accounts = λ d n _ found.
            subst (NodeOk limits 0 (λ _. 0)) (same_value count d new_node n found)
              (NodeOk-empty limits new_node refl refl refl refl);
      };
      placed = tt;
      queues_fit = h1;
      bytes_fit = h2;
    } in
    elim (Result-cases (validate_limits limits)) [
      | inr (inl (x, bad)) ↦ absurd (
          let q : build count run_id limits faults ≡ err (TransportError.protocol x) =
            rw bad refl in
          cc)
      | inr (inr bad) ↦
          absurd (let q : build count run_id limits faults ≡ panic = rw bad refl in cc)
      | inl (u, valid) ↦ elim (Bool-cases (eqb count 0)) [
        | inl none_ ↦ absurd (
            let q : build count run_id limits faults
                ≡ err (TransportError.peer "membership is empty") =
              rw (valid, none_) refl in
            cc)
        | inr some_ ↦
            let q : build count run_id limits faults ≡ ok r = rw (valid, some_) refl in
            let same = one_result (build count run_id limits faults) r s q e in
            (
              subst Inv same v,
              ap (λ t. length t.nodes) (sym same) ∙ length-replicate count new_node,
            )
      ]
    ]

-- In a network that `build` gives, with limits of 64 bits, whatever localities of it take what steps, in
-- whatever order and with whatever faults, where a step is a send, a driver's progress, a round of a
-- flush or one of the two locked sections of a shutdown beside it: a step does not panic, so that no
-- account passes 64 bits or goes below 0. After it each node's account has the bytes of the parcels in
-- its queues and of those held back for it and the number of the latter. The bytes and, on each channel,
-- the parcels in the queue and held back are within the limits, and the system queue is at most one
-- notice above the limit.
pub network_step-Safely :
    (count : ℕ) (run_id : RunId) (limits : ProtocolLimits) (faults : List MemoryFault) (s : State)
    (steps : List NetworkStep) (step : NetworkStep)
    → build count run_id limits faults ≡ ok s
    → limits.max_queued_parcels_per_peer < 2 ^ 64
    → limits.max_inflight_bytes_per_peer < 2 ^ 64
    → AreCalled count steps
    → caller step < count
    → Settled count (network_step step (network_steps steps s))
network_step-Safely count run_id limits faults s steps step e h1 h2 own last =
    let (v, size) = build-Inv count run_id limits faults s e h1 h2 in
    let (w, size') = network_steps-Inv steps s (rw size own) v in
    let same : length (network_steps steps s).nodes ≡ count = size' ∙ size in
    subst (λ n. Settled n (network_step step (network_steps steps s))) same
      (network_step-Settled step (network_steps steps s) w (omega (arith, same, last)))
