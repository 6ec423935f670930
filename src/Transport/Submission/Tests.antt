-- ===== src/Transport/Submission/Tests.antt =====
-- crates/hataori-runtime-foundation/src/transport.rs: two peers and small limits.
use hataori_rs.Prelude.{◌≡◌, refl, [], ◌∷◌, ok, err, false, arith}
use hataori_rs.Protocol.Ids.{Channel, channel_code}
use hataori_rs.Protocol.Limits.{ProtocolLimits, IsValid}
use hataori_rs.Transport.{TransportError}
use hataori_rs.Transport.Submission.{
  SubmissionState, SendPermit, new_state, reserve, reserve_open, reserve_bytes, take_ticket,
  add_count, add_bytes, sub_count,
}
use hataori_rs.Transport.Submission.Reserve.{Holds, reserve-decision}
use hataori_rs.Transport.Submission.Ledger.{Inv}
use hataori_rs.Transport.Submission.Steps.{Step, Reaches, Reaches-Inv, reserve-control}

abbrev limits : ProtocolLimits
limits = record {
  max_frame_bytes = 100;
  max_payload_bytes = 50;
  max_segments = 2;
  max_queued_parcels_per_peer = 1;
  max_inflight_bytes_per_peer = 200;
  control_reserved_bytes_per_peer = 60;
}

limits-IsValid : IsValid limits
limits-IsValid = omega arith

abbrev fresh : SubmissionState
fresh = record {
  limits = limits;
  next_ticket = 1;
  closed = false;
  counts = 0 ∷ 0 ∷ 0 ∷ 0 ∷ 0 ∷ 0 ∷ [];
  bytes = 0 ∷ 0 ∷ [];
  submitted_parcels = 0;
  submitted_bytes = 0;
  received_parcels = 0;
  received_bytes = 0;
  peer_failures = 0;
}

fresh_lem : new_state 2 limits ≡ fresh
unfolding new_state
fresh_lem = refl

abbrev permit : SendPermit
permit = record { peer = 1; channel = Channel.action; bytes = 120; ticket = 1 }

abbrev busy : SubmissionState
busy = record fresh { next_ticket = 2; counts = 0 ∷ 0 ∷ 0 ∷ 0 ∷ 1 ∷ 0 ∷ []; bytes = 0 ∷ 120 ∷ [] }

reserved_lem : reserve 1 Channel.action 120 fresh ≡ (ok permit, busy)
unfolding reserve reserve_open reserve_bytes take_ticket add_count add_bytes channel_code
reserved_lem = refl

-- The queue of the channel is full.
full_lem :
    reserve 1 Channel.action 5 busy ≡ (err (TransportError.queue_full Channel.action 1), busy)
unfolding reserve reserve_open add_count sub_count channel_code
full_lem = refl

busy_reached : Reaches 2 (fresh, []) (busy, permit ∷ [])
busy_reached =
    Reaches.more Reaches.here
      (Step.reserving 1 Channel.action 120 permit (omega arith) (omega arith) reserved_lem)

Reaches-Inv_example : Inv 2 busy (permit ∷ [])
unfolding new_state
Reaches-Inv_example =
    Reaches-Inv 2 limits busy (permit ∷ []) limits-IsValid (omega arith) (omega arith) busy_reached

busy-Inv : Inv 2 busy (permit ∷ [])
unfolding new_state
busy-Inv =
    Reaches-Inv 2 limits busy (permit ∷ []) limits-IsValid (omega arith) (omega arith) busy_reached

reserve-control_example :
    (reserve 1 Channel.control 60 busy).0
    ≡ ok (record { peer = 1; channel = Channel.control; bytes = 60; ticket = 2 })
unfolding channel_code
reserve-control_example =
    reserve-control 2 1 60 busy (permit ∷ []) busy-Inv (omega arith) (omega arith) refl
      (omega arith) (omega arith) (omega arith) (omega arith)

busy-Holds : Holds 1 Channel.bulk 0 120 30 busy
unfolding channel_code
busy-Holds = record { counted = refl; weighed = refl }

-- 150 bytes would reach into the control reserve.
reserve-decision_example :
    reserve 1 Channel.bulk 30 busy ≡ (err (TransportError.byte_limit 150 140), busy)
reserve-decision_example =
    reserve-decision 1 Channel.bulk 0 120 30 busy busy-Holds (omega arith) (omega arith)
