-- ===== src/Transport.antt =====
-- crates/hataori-runtime-foundation/src/transport.rs: what transports have in common.
use Prim.Native.String.{String}
use hataori_rs.Prelude.{ℕ, ◌+◌, ◌-◌, ◌^◌, min}
use hataori_rs.Protocol.Ids.{ProtocolError, LocalityId, Channel}
use hataori_rs.Protocol.Parcel.{Parcel}
pub mod Submission
pub mod Memory

pub data TransportError : Type 0 where
  protocol : ProtocolError → TransportError
  invalid_destination : LocalityId → TransportError
  -- channel, limit
  queue_full : Channel → ℕ → TransportError
  -- actual, limit
  byte_limit : ℕ → ℕ → TransportError
  disconnected : LocalityId → TransportError
  peer : String → TransportError
  io : String → TransportError
  timeout : String → TransportError
  shutdown wrong_thread : TransportError

-- A `SendTicket` wraps a number.
abbrev pub SendTicket : Type 0
SendTicket = ℕ

pub data TransportEvent : Type 0 where
  local_send_complete : SendTicket → TransportEvent
  incoming : Parcel → TransportEvent
  send_failed : SendTicket → TransportError → TransportEvent
  peer_failed : LocalityId → TransportError → TransportEvent
  shutdown_complete : TransportEvent

pub record TransportStats : Type 0 where
  pub submitted_parcels : ℕ
  pub submitted_bytes : ℕ
  pub received_parcels : ℕ
  pub received_bytes : ℕ
  pub queued_control : ℕ
  pub queued_action : ℕ
  pub queued_bulk : ℕ
  pub queued_bytes : ℕ
  pub retained_read_bytes : ℕ
  pub retained_write_bytes : ℕ
  pub retained_reassembly_bytes : ℕ
  pub peer_failures : ℕ
  pub pending_events : ℕ
  pub pending_event_bytes : ℕ

abbrev pub no_stats : TransportStats
no_stats = record {
  submitted_parcels = 0;
  submitted_bytes = 0;
  received_parcels = 0;
  received_bytes = 0;
  queued_control = 0;
  queued_action = 0;
  queued_bulk = 0;
  queued_bytes = 0;
  retained_read_bytes = 0;
  retained_write_bytes = 0;
  retained_reassembly_bytes = 0;
  peer_failures = 0;
  pending_events = 0;
  pending_event_bytes = 0;
}
