-- ===== src/Transport/Memory/Tests.antt =====
-- Runs of a network of two nodes.
use hataori_rs.Prelude.{
  ◌≡◌, refl, arith, false, none, List, [], ◌∷◌, ok, some, get_elem?, length, All,
}
use hataori_rs.Protocol.Ids.{Channel, ParcelKind}
use hataori_rs.Protocol.Limits.{default_limits, validate_limits}
use hataori_rs.Protocol.Reader.{checked_add}
use hataori_rs.Protocol.Parcel.{
  Parcel, payload_len, sum_lengths, table_len, encoded_len, validate_parcel,
}
use hataori_rs.Transport.{TransportEvent, TransportError, no_stats}
use hataori_rs.Transport.Memory.{State, MemoryFault, Delayed, new_node, next_event}
use hataori_rs.Transport.Memory.Network.{
  index, node, put_node, reserve, enqueue, release_item, sift, release_delayed,
}
use hataori_rs.Transport.Memory.Driving.{
  MemoryDriver, build, try_send, admit, take_ticket, deliver, hold_back, confirm, progress, drain,
  account,
}
use hataori_rs.Transport.Memory.Ledger.{Inv}
use hataori_rs.Transport.Memory.Waiting.{NetworkStep, network_step, network_steps}
use hataori_rs.Transport.Memory.Keeping.{Progressed, progress-Inv}
use hataori_rs.Transport.Memory.Stepping.{Settled, network_steps-Inv}
use hataori_rs.Transport.Memory.Flushing.{DueBy, Flushed, flush_due}
use hataori_rs.Transport.Memory.Closing.{ShutDown, shutdown-Inv}
use hataori_rs.Transport.Memory.Calls.{build-Inv, network_step-Safely}

abbrev greeting : Parcel
greeting = record {
  run_id = 7;
  message_id = 1;
  channel = Channel.action;
  kind = ParcelKind.data_;
  source = 0;
  destination = 1;
  trace_id = none;
  segments = (1 ∷ 2 ∷ 3 ∷ []) ∷ [];
}

-- The first parcel is held back for two ticks, the second sent twice.
abbrev network : State
network = record {
  run_id = 7;
  limits = default_limits;
  tick = 0;
  next_ticket = 1;
  faults = MemoryFault.delay 2 ∷ MemoryFault.duplicate ∷ [];
  delayed = [];
  nodes = new_node ∷ new_node ∷ [];
}

built : build 2 7 default_limits (MemoryFault.delay 2 ∷ MemoryFault.duplicate ∷ []) ≡ ok network
unfolding build validate_limits
built = refl

abbrev sends : List NetworkStep
sends = NetworkStep.send 0 greeting ∷ NetworkStep.send 0 greeting ∷ []

abbrev sent : State
sent = network_steps sends network

abbrev held : Delayed
held = record { release_at = 2; destination = 1; parcel = greeting; bytes = 3 }

sent_delayed : sent.delayed ≡ held ∷ []
unfolding try_send admit node index validate_parcel validate_limits payload_len sum_lengths
    checked_add table_len encoded_len take_ticket deliver hold_back reserve enqueue put_node confirm
sent_delayed = refl

abbrev receiver : MemoryDriver
receiver = record { local_id = 1; shutdown = false }

abbrev sender : MemoryDriver
sender = record { local_id = 0; shutdown = false }

-- The two copies come before the parcel that was held back.
arrivals :
    (progress receiver 5 sent).0
    ≡ ok (TransportEvent.incoming greeting ∷ TransportEvent.incoming greeting ∷ [])
unfolding try_send admit node index validate_parcel validate_limits payload_len sum_lengths
    checked_add table_len encoded_len take_ticket deliver hold_back reserve enqueue put_node confirm
    progress release_delayed sift release_item drain next_event account
arrivals = refl

sent-Inv : Inv sent × (length sent.nodes ≡ 2)
sent-Inv =
    let (v, size) =
      build-Inv 2 7 default_limits (MemoryFault.delay 2 ∷ MemoryFault.duplicate ∷ []) network built
        (omega arith) (omega arith) in
    network_steps-Inv sends network (omega arith, (omega arith, tt)) v

sent_due : All (DueBy 0 2) sent.delayed
sent_due = rw sent_delayed ((λ e. omega arith), tt)

-- The receiver's answer.
abbrev reply : Parcel
reply = record greeting { source = 1; destination = 0 }

network_step-Safely_example :
    Settled 2 (network_step (NetworkStep.make_progress receiver 5) (network_steps sends network))
network_step-Safely_example =
    network_step-Safely 2 7 default_limits (MemoryFault.delay 2 ∷ MemoryFault.duplicate ∷ [])
      network sends (NetworkStep.make_progress receiver 5) built (omega arith) (omega arith)
      (omega arith, (omega arith, tt)) (omega arith)

-- A send that finds room for one notice leaves two.
abbrev narrow : State
narrow = record network {
  limits = record default_limits { max_queued_parcels_per_peer = 1 };
  faults = MemoryFault.disconnect ∷ [];
}

two_notices :
    (get_elem? (network_step (NetworkStep.send 0 greeting) narrow).1.nodes 0)
    ≡ some (record new_node {
      system =
          TransportEvent.peer_failed 1 (TransportError.disconnected 1)
          ∷ TransportEvent.local_send_complete 1
          ∷ [];
      stats = record no_stats { submitted_parcels = 1; submitted_bytes = 3; peer_failures = 1 };
    })
unfolding try_send admit node index validate_parcel validate_limits payload_len sum_lengths
    checked_add table_len encoded_len take_ticket deliver put_node confirm
two_notices = refl

progress-Inv_example : Progressed receiver 5 sent
progress-Inv_example = progress-Inv receiver 5 sent sent-Inv.0 (omega (arith, sent-Inv.1)) refl

-- What the receiver does while the sender waits.
abbrev meanwhile : List NetworkStep
meanwhile = NetworkStep.make_progress receiver 5 ∷ NetworkStep.send 1 reply ∷ []

flush_due_example : Flushed (meanwhile ∷ []) 0 sent
flush_due_example =
    flush_due (meanwhile ∷ []) 0 2 sent sent-Inv.0 sent_due
      ((omega (arith, sent-Inv.1), ((omega (arith, sent-Inv.1), λ e. omega (arith, e)), tt)), tt)
      (omega arith) (omega arith)

shutdown-Inv_example : ShutDown [] (meanwhile ∷ [] ∷ []) meanwhile sender sent
shutdown-Inv_example =
    shutdown-Inv [] (meanwhile ∷ [] ∷ []) meanwhile sender sent sent-Inv.0
      (omega (arith, sent-Inv.1)) tt
      ((omega (arith, sent-Inv.1), (omega (arith, sent-Inv.1), tt)), (tt, tt))
      (omega (arith, sent-Inv.1), (omega (arith, sent-Inv.1), tt))
