-- ===== src/Runtime/Errors.antt =====
-- crates/hataori-runtime/src/error.rs: errors. A duration is a number, and a static string is a
-- string.
use Prim.Native.String.{String}
use hataori_rs.Prelude.{ℕ}
use hataori_rs.Transport.{TransportError}
use hataori_rs.Protocol.Ids.{ActionId, DomainId, LocalityId, ObjectId, ObjectLocation, RequestId}

pub data RuntimeState : Type 0 where
  created bootstrapping running draining stopped failed : RuntimeState

pub data ResourceKind : Type 0 where
  pending_calls action_queue dedup_entries dedup_bytes send_tickets objects : ResourceKind
  object_mailbox resolver_entries locality_leases object_roots : ResourceKind
  placement_tickets lease_transfers migrations prepared_migrations : ResourceKind
  forwarders snapshot_bytes snapshot_segments : ResourceKind

-- An `ObjectTypeId` wraps a number.
abbrev pub ObjectTypeId : Type 0
ObjectTypeId = ℕ

pub data RuntimeError : Type 0 where
  invalid_limits : String → RuntimeError
  builder_sealed handshake_not_prepared : RuntimeError
  -- expected, actual
  invalid_state : RuntimeState → RuntimeState → RuntimeError
  duplicate_action : ActionId → RuntimeError
  unknown_action : ActionId → RuntimeError
  unknown_domain : DomainId → RuntimeError
  duplicate_object_type : ObjectTypeId → RuntimeError
  unknown_object_type : ObjectTypeId → RuntimeError
  unknown_object : ObjectId → RuntimeError
  object_collected : ObjectId → RuntimeError
  stale_object_location : ObjectId → RuntimeError
  object_action : String → RuntimeError
  invalid_object_type_id invalid_object_concurrency : RuntimeError
  pinned_object_type : ObjectTypeId → RuntimeError
  migration_in_progress : ObjectId → RuntimeError
  migration_conflict : ObjectId → RuntimeError
  -- request, message
  migration : RequestId → String → RuntimeError
  migration_rolled_back : ObjectId → RuntimeError
  -- object, message
  migration_committed_failure : ObjectId → String → RuntimeError
  -- bytes, limit
  snapshot_too_large : ℕ → ℕ → RuntimeError
  -- object, location
  moved : ObjectId → ObjectLocation → RuntimeError
  redirect_limit : ObjectId → RuntimeError
  invalid_action_id invalid_schema invalid_deadline : RuntimeError
  invalid_membership : LocalityId → RuntimeError
  -- resource, limit
  resource_exhausted : ResourceKind → ℕ → RuntimeError
  -- request, deadline
  deadline_exceeded : RequestId → ℕ → RuntimeError
  cancelled : RequestId → RuntimeError
  -- request, message
  remote_action : RequestId → String → RuntimeError
  remote_object : RequestId → String → RuntimeError
  placement : RequestId → String → RuntimeError
  lease : RequestId → String → RuntimeError
  lease_transfer_expired : ObjectId → RuntimeError
  duplicate_result_unavailable : RequestId → RuntimeError
  protocol : String → RuntimeError
  transport : TransportError → RuntimeError
  peer_failed : LocalityId → RuntimeError
  shutdown shutdown_timeout retained_resources : RuntimeError

-- The messages are short enough for `cap`.
pub data ActionError : Type 0 where
  codec user : String → ActionError
  panicked : ActionError
