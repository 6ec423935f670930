-- ===== src/Transport/Memory.antt =====
-- crates/hataori-runtime-foundation/src/memory.rs: the network in memory, its nodes and their queues.
-- Each section of a method that holds the mutex is one step.
use hataori_rs.Prelude.{
  ℕ, ◌+◌, ◌-◌, ◌%◌, ◌^◌, Bool, true, false, Option, none, some, List, [], ◌∷◌, ◌++◌, length,
}
use hataori_rs.Protocol.Ids.{LocalityId, RunId, Channel}
use hataori_rs.Protocol.Limits.{ProtocolLimits}
use hataori_rs.Protocol.Parcel.{Parcel}
use hataori_rs.Transport.{TransportEvent, TransportStats, no_stats}
pub mod Network
pub mod Driving
pub mod Waiting
pub mod Emptying
pub mod Stepping
pub mod Ledger
pub mod Releasing
pub mod Sifting
pub mod Draining
pub mod Keeping
pub mod Flushing
pub mod Closing
pub mod Sending
pub mod Delivering
pub mod Trying
pub mod Calls
pub mod Tests

pub data MemoryFault : Type 0 where
  pass duplicate loss reorder saturate disconnect : MemoryFault
  -- progress_ticks
  delay : ℕ → MemoryFault

-- `[X; 3]`, indexed by `channel as usize`.
pub record PerChannel (X : Type 0) : Type 0 where
  pub control : X
  pub action : X
  pub bulk : X

module _ {X : Type 0} where
  abbrev pub of_channel : Channel → PerChannel X → X
  of_channel Channel.control q = q.control
  of_channel Channel.action q = q.action
  of_channel Channel.bulk q = q.bulk

  abbrev pub with_channel : Channel → X → PerChannel X → PerChannel X
  with_channel Channel.control x q = record q { control = x }
  with_channel Channel.action x q = record q { action = x }
  with_channel Channel.bulk x q = record q { bulk = x }

pub record Node : Type 0 where
  pub active : Bool
  pub system : List TransportEvent
  pub incoming : PerChannel (List TransportEvent)
  pub delayed_counts : PerChannel ℕ
  pub queued_bytes : ℕ
  pub stats : TransportStats

pub record Delayed : Type 0 where
  pub release_at : ℕ
  pub destination : LocalityId
  pub parcel : Parcel
  pub bytes : ℕ

pub record State : Type 0 where
  pub run_id : RunId
  pub limits : ProtocolLimits
  pub tick : ℕ
  pub next_ticket : ℕ
  pub faults : List MemoryFault
  pub delayed : List Delayed
  pub nodes : List Node

abbrev pub no_queues : PerChannel (List TransportEvent)
no_queues = record { control = []; action = []; bulk = [] }

abbrev pub no_counts : PerChannel ℕ
no_counts = record { control = 0; action = 0; bulk = 0 }

abbrev pub new_node : Node
new_node = record {
  active = true;
  system = [];
  incoming = no_queues;
  delayed_counts = no_counts;
  queued_bytes = 0;
  stats = no_stats;
}

unfoldable pub clear : Node → Node
clear n = record n {
  system = [];
  incoming = no_queues;
  delayed_counts = no_counts;
  queued_bytes = 0;
  stats = record n.stats {
    queued_control = 0;
    queued_action = 0;
    queued_bulk = 0;
    queued_bytes = 0;
  };
}

-- `Node::stats`.
unfoldable pub node_stats : Node → TransportStats
node_stats n = record n.stats {
  queued_control = length n.incoming.control + n.delayed_counts.control;
  queued_action = length n.incoming.action + n.delayed_counts.action;
  queued_bulk = length n.incoming.bulk + n.delayed_counts.bulk;
  queued_bytes = n.queued_bytes;
  pending_events = length n.system;
}

-- `pop_front`, or else what the other queues give.
abbrev pub pop_or :
    List TransportEvent
    → (List TransportEvent → Node)
    → Option (TransportEvent × Node)
    → Option (TransportEvent × Node)
pop_or [] back other = other
pop_or (e ∷ es) back other = some (e, back es)

-- The first event in the order system, control, action, bulk, and the node without it.
unfoldable pub next_event : Node → Option (TransportEvent × Node)
next_event n =
    pop_or n.system (λ es. record n { system = es })
      (pop_or n.incoming.control (λ es. record n { incoming = record n.incoming { control = es } })
        (pop_or n.incoming.action (λ es. record n { incoming = record n.incoming { action = es } })
          (pop_or n.incoming.bulk (λ es. record n { incoming = record n.incoming { bulk = es } })
            none)))

-- A counter of 64 bits.
abbrev pub counted : ℕ → ℕ → ℕ
counted total more = (total + more) % 2 ^ 64
