-- ===== src/Transport/Memory/Closing.antt =====
-- crates/hataori-runtime-foundation/src/memory.rs: `shutdown` of a driver, with other threads' steps between
-- its locked sections.
use hataori_rs.Prelude.{◌<◌, ◌≡◌, ◌⊎◌, refl, ◌∙◌, true, List, ok, err, length, All, arith, inl, inr}
use hataori_rs.Transport.Memory.{State}
use hataori_rs.Transport.Memory.Driving.{MemoryDriver}
use hataori_rs.Transport.Memory.Waiting.{NetworkStep, network_steps, shutdown}
use hataori_rs.Transport.Memory.Ledger.{Inv}
use hataori_rs.Transport.Memory.Keeping.{All-unit}
use hataori_rs.Transport.Memory.Emptying.{Emptied, deactivated, close_node-Closed}
use hataori_rs.Transport.Memory.Stepping.{network_steps-Inv}
use hataori_rs.Transport.Memory.Flushing.{timed_out, AreCalled, flush-Inv}

-- A shutdown that ends.
abbrev pub ShutDown :
    List NetworkStep → List (List NetworkStep) → List NetworkStep → MemoryDriver → State → Type 0
ShutDown before waits after d s =
    (t : State) × Inv t
    × (length t.nodes ≡ length s.nodes)
    × (((shutdown before waits after d s ≡ (ok (record d { shutdown = true }), t))
          × Emptied d.local_id t)
        ⊎ (shutdown before waits after d s ≡ (err timed_out, t)))

-- While the accounts hold, and whatever steps other threads take between its locked sections, of
-- localities that there are: a shutdown ends, with a success or a timeout, and keeps the accounts. After
-- a success the driver is shut down, its node is not active and has nothing in its queues or on its
-- account, and no parcel from it or to it is held back.
pub shutdown-Inv :
    (before : List NetworkStep) (waits : List (List NetworkStep)) (after : List NetworkStep)
    (d : MemoryDriver) (s : State)
    → Inv s
    → d.local_id < length s.nodes
    → AreCalled (length s.nodes) before
    → All (AreCalled (length s.nodes)) waits
    → AreCalled (length s.nodes) after
    → ShutDown before waits after d s
unfolding shutdown
shutdown-Inv before waits after d s v inside own own' own'' =
    let (u, off, size, w, _, _) = deactivated d.local_id s v inside in
    let (x, size1) = network_steps-Inv before u (rw size own) w in
    let (t, end, size2, h) =
      flush-Inv waits d.local_id (network_steps before u) x (rw (size1, size) own') in
    let same : length t.nodes ≡ length s.nodes = size2 ∙ size1 ∙ size in
    elim end [
      | inr late ↦ (t, h, same, inr (rw (off, late) refl))
      | inl flushed ↦
          let (y, size3) = network_steps-Inv after t (rw same own'') h in
          let (r, closed, size4, done, _, _) =
            close_node-Closed (λ _. Unit {0}) d.local_id (network_steps after t) y
              (All-unit (network_steps after t).delayed) (omega (arith, size3, same, inside)) in
          (r, done.0, size4 ∙ size3 ∙ same, inl (rw (off, flushed, closed) refl, done))
    ]
