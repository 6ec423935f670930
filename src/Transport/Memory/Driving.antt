-- ===== src/Transport/Memory/Driving.antt =====
-- crates/hataori-runtime-foundation/src/memory.rs: `MemoryNetwork::build`, `MemoryHandle::try_send` and
-- the methods of `MemoryDriver`.
use hataori_rs.Prelude.{
  ℕ, zero, suc, ◌+◌, ◌-◌, ◌^◌, min, Bool, true, false, ◌||◌, not, Option, none, some, List, [], ◌∷◌,
  ◌++◌, Result, ok, err, panic, ltb, eqb, if◌then◌else◌, length, replicate,
}
use hataori_rs.Prelude.Action.{◌>>=◌, ◌>>◌, pure, fail, read, get, modify}
use hataori_rs.Prelude.Fallible
use hataori_rs.Protocol.Ids.{LocalityId, RunId, Channel, ProtocolError}
use hataori_rs.Protocol.Limits.{ProtocolLimits, validate_limits}
use hataori_rs.Protocol.Parcel.{Parcel, validate_parcel, payload_len}
use hataori_rs.Transport.{TransportError, TransportEvent, TransportStats, SendTicket, no_stats}
use hataori_rs.Transport.Memory.{
  MemoryFault, Node, Delayed, State, new_node, clear, node_stats, next_event, counted, of_channel,
  with_channel,
}
use hataori_rs.Transport.Memory.Network.{
  Step, node, put_node, plus, ensure, minus, reserve, enqueue, release_delayed, cancel_locality,
}

abbrev pub from_protocol : {X : Type 0} → Result ProtocolError X → Result TransportError X
from_protocol (ok x) = ok x
from_protocol (err e) = err (TransportError.protocol e)
from_protocol panic = panic

abbrev pub saturating : ℕ → ℕ → ℕ
saturating a b = min (a + b) (2 ^ 64 - 1)

abbrev pub at_least_one : ℕ → ℕ
at_least_one n = if eqb n 0 then 1 else n

-- The localities are the numbers below `count`; each has a handle and a driver on the state.
unfoldable pub build : ℕ → RunId → ProtocolLimits → List MemoryFault → Result TransportError State
build count run_id limits faults = Fallible.◌>>=◌ (from_protocol (validate_limits limits)) λ _.
    if eqb count 0
    then err (TransportError.peer "membership is empty")
    else ok (record {
      run_id = run_id;
      limits = limits;
      tick = 0;
      next_ticket = 1;
      faults = faults;
      delayed = [];
      nodes = replicate count new_node;
    })

-- `faults.pop_front().unwrap_or(Pass)`
abbrev pub pop_fault : List MemoryFault → MemoryFault × List MemoryFault
pop_fault [] = (MemoryFault.pass, [])
pop_fault (fault ∷ faults) = (fault, faults)

-- A parcel that is held back is on its destination's account.
unfoldable pub hold_back : Parcel → ℕ → ℕ → Step (Unit {0})
unfolding node put_node
hold_back p bytes ticks = do
  n ← node p.destination
  count ← plus (of_channel p.channel n.delayed_counts) 1
  total ← plus n.queued_bytes bytes
  put_node p.destination (record n {
    delayed_counts = with_channel p.channel count n.delayed_counts;
    queued_bytes = total;
  })
  modify λ s. record s {
    delayed =
        s.delayed
        ++ record {
          release_at = saturating s.tick (at_least_one ticks);
          destination = p.destination;
          parcel = p;
          bytes = bytes;
        }
          ∷ [];
  }

-- The `match` on the fault.
unfoldable pub deliver : LocalityId → Parcel → ℕ → MemoryFault → Step (Unit {0})
unfolding reserve enqueue hold_back node put_node
deliver local p bytes MemoryFault.saturate = do
  s ← get
  fail (TransportError.queue_full p.channel s.limits.max_queued_parcels_per_peer)
deliver local p bytes MemoryFault.disconnect = do
  n ← node local
  put_node local (record n {
    system =
        n.system
        ++ TransportEvent.peer_failed p.destination (TransportError.disconnected p.destination)
          ∷ [];
    stats = record n.stats { peer_failures = counted n.stats.peer_failures 1 };
  })
deliver local p bytes MemoryFault.loss = pure tt
deliver local p bytes (MemoryFault.delay ticks) = reserve p bytes 1 >> hold_back p bytes ticks
deliver local p bytes MemoryFault.duplicate =
    reserve p bytes 2 >> enqueue p bytes false >> enqueue p bytes false
deliver local p bytes MemoryFault.reorder = reserve p bytes 1 >> enqueue p bytes true
deliver local p bytes MemoryFault.pass = reserve p bytes 1 >> enqueue p bytes false

-- The tests of `try_send`, and the parcel's size.
unfoldable pub admit : LocalityId → Parcel → Step ℕ
unfolding node
admit local p = do
  n ← node local
  ensure n.active TransportError.shutdown
  s ← get
  ensure (eqb p.run_id s.run_id) (TransportError.protocol ProtocolError.run_mismatch)
  ensure (eqb p.source local) (TransportError.peer "parcel source does not match handle")
  read (λ _. from_protocol (validate_parcel p s.limits))
  _ ← node p.destination
  ensure (ltb (length n.system) s.limits.max_queued_parcels_per_peer)
      (TransportError.queue_full Channel.control s.limits.max_queued_parcels_per_peer)
  read (λ _. from_protocol (payload_len p))

unfoldable pub take_ticket : Step SendTicket
take_ticket = do
  s ← get
  ensure (ltb (s.next_ticket + 1) (2 ^ 64)) (TransportError.peer "send ticket overflow")
  modify (λ t. record t { next_ticket = s.next_ticket + 1 })
  pure s.next_ticket

-- The sender's node learns that the parcel is sent.
unfoldable pub confirm : LocalityId → ℕ → SendTicket → Step (Unit {0})
unfolding node put_node
confirm local bytes ticket = do
  n ← node local
  put_node local (record n {
    system = n.system ++ TransportEvent.local_send_complete ticket ∷ [];
    stats = record n.stats {
      submitted_parcels = counted n.stats.submitted_parcels 1;
      submitted_bytes = counted n.stats.submitted_bytes bytes;
    };
  })

unfoldable pub try_send : LocalityId → Parcel → Step SendTicket
unfolding admit take_ticket deliver confirm
try_send local p = do
  bytes ← admit local p
  ticket ← take_ticket
  s ← get
  modify (λ t. record t { faults = (pop_fault s.faults).1 })
  deliver local p bytes (pop_fault s.faults).0
  confirm local bytes ticket
  pure ticket

pub record MemoryDriver : Type 0 where
  pub local_id : LocalityId
  pub shutdown : Bool

-- An event that was taken from the node `n`; the size of an incoming parcel leaves the account.
unfoldable pub account : LocalityId → Node → TransportEvent → Step (Unit {0})
unfolding put_node
account local n (TransportEvent.incoming p) = do
  put_node local n
  bytes ← read (λ _. from_protocol (payload_len p))
  left ← minus n.queued_bytes bytes
  put_node local (record n {
    queued_bytes = left;
    stats = record n.stats {
      queued_bytes = left;
      received_parcels = counted n.stats.received_parcels 1;
      received_bytes = counted n.stats.received_bytes bytes;
    };
  })
account local n (TransportEvent.local_send_complete ticket) = put_node local n
account local n (TransportEvent.send_failed ticket e) = put_node local n
account local n (TransportEvent.peer_failed peer e) = put_node local n
account local n TransportEvent.shutdown_complete = put_node local n

abbrev pub on_event :
    LocalityId
    → Step (List TransportEvent)
    → Option (TransportEvent × Node)
    → Step (List TransportEvent)
on_event local next none = pure []
on_event local next (some (event, n)) = do
  account local n event
  events ← next
  pure (event ∷ events)

-- The loop of `progress`, which takes at most so many events.
unfoldable pub drain : LocalityId → ℕ → Step (List TransportEvent)
unfolding node
drain local zero = pure []
drain local (suc n) = do m ← node local; on_event local (drain local n) (next_event m)

-- The events that it pushes, in their order.
unfoldable pub progress : MemoryDriver → ℕ → Step (List TransportEvent)
unfolding release_delayed node drain
progress d max_events = do
  ensure (not d.shutdown) TransportError.shutdown
  modify (λ s. record s { tick = saturating s.tick 1 })
  release_delayed
  _ ← node d.local_id
  drain d.local_id max_events

abbrev pub from_local : LocalityId → List Delayed → Bool
from_local local [] = false
from_local local (item ∷ items) = eqb item.parcel.source local || from_local local items

-- Whether a parcel of the driver is still delayed after one more tick.
unfoldable pub flush_round : LocalityId → Step Bool
unfolding release_delayed
flush_round local = do
  modify (λ s. record s { tick = saturating s.tick 1 })
  release_delayed
  s ← get
  pure (from_local local s.delayed)

-- What `shutdown` does first.
unfoldable pub deactivate : LocalityId → Step (Unit {0})
unfolding node put_node
deactivate local = do n ← node local; put_node local (record n { active = false })

-- What `shutdown` does after its flush.
unfoldable pub close_node : LocalityId → Step (Unit {0})
unfolding cancel_locality node put_node
close_node local = do
  cancel_locality local
  m ← node local
  put_node local (clear (record m { active = false }))

-- `TransportDriver::stats`
unfoldable pub stats_of : Result TransportError Node → TransportStats
unfolding node_stats
stats_of (ok n) = node_stats n
stats_of (err e) = no_stats
stats_of panic = no_stats

unfoldable pub driver_stats : MemoryDriver → State → TransportStats
unfolding stats_of node
driver_stats d s = stats_of (node d.local_id s).0
