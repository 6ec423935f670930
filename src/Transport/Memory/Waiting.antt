-- ===== src/Transport/Memory/Waiting.antt =====
-- crates/hataori-runtime-foundation/src/memory.rs: `flush` and `shutdown` of a driver. Both let go of the
-- mutex between their locked sections, so that other threads' sections may come in between: those are
-- arguments.
use hataori_rs.Prelude.{ℕ, true, not, List, [], ◌∷◌, if◌then◌else◌}
use hataori_rs.Prelude.Action.{◌>>=◌, ◌>>◌, pure, modify}
use hataori_rs.Protocol.Ids.{LocalityId}
use hataori_rs.Protocol.Parcel.{Parcel}
use hataori_rs.Transport.{TransportError}
use hataori_rs.Transport.Memory.{State}
use hataori_rs.Transport.Memory.Network.{Step, ensure}
use hataori_rs.Transport.Memory.Driving.{
  MemoryDriver, try_send, progress, flush_round, deactivate, close_node,
}

-- A section of a method's code under the mutex.
pub data NetworkStep : Type 0 where
  send : LocalityId → Parcel → NetworkStep
  make_progress : MemoryDriver → ℕ → NetworkStep
  round : LocalityId → NetworkStep
  turn_off : LocalityId → NetworkStep
  close : LocalityId → NetworkStep

-- Whose handle or driver it is of.
abbrev pub caller : NetworkStep → LocalityId
caller (NetworkStep.send local p) = local
caller (NetworkStep.make_progress d max_events) = d.local_id
caller (NetworkStep.round local) = local
caller (NetworkStep.turn_off local) = local
caller (NetworkStep.close local) = local

abbrev pub network_step : NetworkStep → Step (Unit {0})
network_step (NetworkStep.send local p) = try_send local p >>= λ _. pure tt
network_step (NetworkStep.make_progress d max_events) = progress d max_events >>= λ _. pure tt
network_step (NetworkStep.round local) = flush_round local >>= λ _. pure tt
network_step (NetworkStep.turn_off local) = deactivate local
network_step (NetworkStep.close local) = close_node local

-- The state after some steps, whatever they gave.
abbrev pub network_steps : List NetworkStep → State → State
network_steps [] s = s
network_steps (step ∷ steps) s = network_steps steps (network_step step s).1

-- The lists are of the steps that other threads take while the mutex is free, one list after each round
-- but the last. The last round ends after the deadline.
unfoldable pub flush : List (List NetworkStep) → LocalityId → Step (Unit {0})
unfolding flush_round
flush [] local = do
  pending ← flush_round local
  ensure (not pending) (TransportError.timeout "memory flush")
flush (others ∷ rest) local = do
  pending ← flush_round local
  if pending then modify (network_steps others) >> flush rest local else pure tt

-- The driver after it. The lists are as above, and of the steps of other threads before the flush and
-- after it. The event that it pushes is `shutdown_complete`.
unfoldable pub shutdown :
    List NetworkStep → List (List NetworkStep) → List NetworkStep → MemoryDriver → Step MemoryDriver
unfolding flush deactivate close_node
shutdown before waits after d = do
  deactivate d.local_id
  modify (network_steps before)
  flush waits d.local_id
  modify (network_steps after)
  close_node d.local_id
  pure (record d { shutdown = true })
