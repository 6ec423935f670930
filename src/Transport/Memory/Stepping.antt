-- ===== src/Transport/Memory/Stepping.antt =====
-- crates/hataori-runtime-foundation/src/memory.rs: the steps that threads take, one under the mutex at a
-- time.
use hataori_rs.Prelude.{
  ℕ, ◌<◌, ◌≡◌, refl, ◌∙◌, List, [], ◌∷◌, Result, ok, err, panic, length, All, arith,
}
use hataori_rs.Protocol.Ids.{LocalityId}
use hataori_rs.Transport.{TransportError}
use hataori_rs.Transport.Memory.{Delayed, State}
use hataori_rs.Transport.Memory.Driving.{saturating, from_local, flush_round, try_send, progress}
use hataori_rs.Transport.Memory.Waiting.{NetworkStep, caller, network_step, network_steps}
use hataori_rs.Transport.Memory.Ledger.{Inv}
use hataori_rs.Transport.Memory.Delivering.{Safely, Safely-then, Goes, Anything}
use hataori_rs.Transport.Memory.Trying.{try_send-Safely}
use hataori_rs.Transport.Memory.Keeping.{
  All-unit, ticked, release_delayed-Released, progress-Safely,
}
use hataori_rs.Transport.Memory.Emptying.{deactivated, close_node-Closed}

-- A round of a flush, its answer, and what is so of the parcels that are still held back.
pub round_kept :
    (Q : Delayed → Type 0) (local : LocalityId) (s : State)
    → Inv s
    → All Q s.delayed
    → (t : State) × (flush_round local s ≡ (ok (from_local local t.delayed), t))
      × (length t.nodes ≡ length s.nodes)
      × (t.tick ≡ saturating s.tick 1)
      × Inv t
      × All Q t.delayed
      × All (λ item. t.tick < item.release_at) t.delayed
unfolding flush_round
round_kept Q local s v q =
    let (delayed, nodes, e, size, w, rest, late) =
      release_delayed-Released Q (record s { tick = saturating s.tick 1 })
        (ticked s (saturating s.tick 1) v) q in
    (_, rw e refl, size, refl, w, rest, late)

-- The parcels that a step may hold back have the property.
abbrev pub Allows : (Delayed → Type 0) → NetworkStep → Type 0
Allows Q (NetworkStep.send local p) = (item : Delayed) → item.parcel.source ≡ local → Q item
Allows Q (NetworkStep.make_progress d max_events) = Unit
Allows Q (NetworkStep.round local) = Unit
Allows Q (NetworkStep.turn_off local) = Unit
Allows Q (NetworkStep.close local) = Unit

pub network_step-Goes :
    (Q : Delayed → Type 0) (step : NetworkStep) (s : State)
    → Allows Q step
    → All Q s.delayed
    → Inv s
    → caller step < length s.nodes
    → Safely (length s.nodes) (Goes Q s.tick) Anything (network_step step s)
network_step-Goes Q (NetworkStep.send local p) s allowed q v own =
    Safely-then (length s.nodes) (Goes Q s.tick) Anything Anything _ (try_send local p s)
      (try_send-Safely Q local p s allowed q v own) λ _ t w size goes _. (w, size, goes, tt)
network_step-Goes Q (NetworkStep.make_progress d max_events) s allowed q v own =
    Safely-then (length s.nodes) (Goes Q s.tick) Anything Anything _ (progress d max_events s)
      (progress-Safely Q d max_events s v q own) λ _ t w size goes _. (w, size, goes, tt)
network_step-Goes Q (NetworkStep.round local) s allowed q v own =
    let (t, e, size, time, w, rest, _) = round_kept Q local s v q in
    rw e (w, size, (rest, omega (arith, time)), tt)
network_step-Goes Q (NetworkStep.turn_off local) s allowed q v own =
    let (t, e, size, w, same, time) = deactivated local s v own in
    rw e (w, size, (rw same q, omega (arith, time)), tt)
network_step-Goes Q (NetworkStep.close local) s allowed q v own =
    let (t, e, size, done, rest, time) = close_node-Closed Q local s v q own in
    rw e (done.0, size, (rest, omega (arith, time)), tt)

kept :
    {X : Type 0} (n : ℕ) (G : State → Type 0) (r : Result TransportError X × State)
    → Safely n G Anything r
    → Inv r.1 × (length r.1.nodes ≡ n) × G r.1
kept n G (ok x, t) (v, size, g, _) = (v, size, g)
kept n G (err e, t) h = h
kept n G (panic, t) h = absurd h

-- Steps of localities that there are, whatever they give.
pub network_steps-Goes :
    (Q : Delayed → Type 0) (steps : List NetworkStep) (s : State)
    → All (Allows Q) steps
    → All (λ x. caller x < length s.nodes) steps
    → All Q s.delayed
    → Inv s
    → Inv (network_steps steps s)
      × (length (network_steps steps s).nodes ≡ length s.nodes)
      × Goes Q s.tick (network_steps steps s)
network_steps-Goes Q [] s allowed own q v = (v, refl, (q, omega arith))
network_steps-Goes Q (step ∷ steps) s allowed own q v =
    let (w, size, goes) =
      kept (length s.nodes) (Goes Q s.tick) (network_step step s)
        (network_step-Goes Q step s allowed.0 q v own.0) in
    let (u, size', goes') =
      network_steps-Goes Q steps (network_step step s).1 allowed.1 (rw size own.1) goes.0 w in
    (u, size' ∙ size, (goes'.0, omega (arith, goes.1, goes'.1)))

free : (step : NetworkStep) → Allows (λ _. Unit {0}) step
free (NetworkStep.send local p) = λ _ _. tt
free (NetworkStep.make_progress d max_events) = tt
free (NetworkStep.round local) = tt
free (NetworkStep.turn_off local) = tt
free (NetworkStep.close local) = tt

steps_free : (steps : List NetworkStep) → All (Allows (λ _. Unit {0})) steps
steps_free [] = tt
steps_free (step ∷ steps) = (free step, steps_free steps)

-- The same, of the accounts only.
pub network_steps-Inv :
    (steps : List NetworkStep) (s : State)
    → All (λ x. caller x < length s.nodes) steps
    → Inv s
    → Inv (network_steps steps s) × (length (network_steps steps s).nodes ≡ length s.nodes)
network_steps-Inv steps s own v =
    let (w, size, _) =
      network_steps-Goes (λ _. Unit {0}) steps s (steps_free steps) own (All-unit s.delayed) v in
    (w, size)

-- An outcome that is no panic, with accounts that hold.
abbrev pub Settled : {X : Type 0} → ℕ → Result TransportError X × State → Type 0
Settled localities (ok x, t) = Inv t × (length t.nodes ≡ localities)
Settled localities (err e, t) = Inv t × (length t.nodes ≡ localities)
Settled localities (panic, t) = ⊥

settle :
    {X : Type 0} (n : ℕ) (G : State → Type 0) (r : Result TransportError X × State)
    → Safely n G Anything r
    → Settled n r
settle n G (ok x, t) (v, size, _, _) = (v, size)
settle n G (err e, t) (v, size, _) = (v, size)
settle n G (panic, t) h = h

pub network_step-Settled :
    (step : NetworkStep) (s : State)
    → Inv s
    → caller step < length s.nodes
    → Settled (length s.nodes) (network_step step s)
network_step-Settled step s v own =
    settle (length s.nodes) (Goes (λ _. Unit {0}) s.tick) (network_step step s)
      (network_step-Goes (λ _. Unit {0}) step s (free step) (All-unit s.delayed) v own)
