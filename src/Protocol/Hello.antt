-- ===== src/Protocol/Hello.antt =====
-- crates/hataori-runtime-foundation/src/protocol.rs: the handshake record and its byte form. A hash
-- is its 32 bytes.
use Prim.Native.Nat.{bit_and}
use hataori_rs.Prelude.{
  ℕ, Bool, not, ◌&&◌, List, [], ◌∷◌, ◌++◌, Result, ok, err, eqb, if◌then◌else◌, length,
}
use hataori_rs.Prelude.Bytes.{to_le, same_bytes}
use hataori_rs.Prelude.Action.{Action, ◌>>=◌, ◌>>◌, pure, fail, read}
use hataori_rs.Prelude.Fallible
use hataori_rs.Protocol.Ids.{ProtocolError, RunId, RuntimeVersion, nonzero_id}
use hataori_rs.Protocol.Limits.{ProtocolLimits, validate_limits, negotiate}
use hataori_rs.Protocol.Reader.{Reader, new_reader, take_bytes, take_uint, finish, to_u32}

pub record Hello : Type 0 where
  pub run_id : RunId
  pub runtime_version : RuntimeVersion
  pub action_registry_hash : List ℕ
  pub object_registry_hash : List ℕ
  pub capabilities : ℕ
  pub limits : ProtocolLimits

pub record NegotiatedHello : Type 0 where
  pub capabilities : ℕ
  pub limits : ProtocolLimits

abbrev pub hello_magic : List ℕ
hello_magic = b'H' ∷ b'T' ∷ b'H' ∷ b'L' ∷ []

abbrev pub protocol_version : ℕ
protocol_version = 1

abbrev pub hello_bytes : ℕ
hello_bytes = 142

abbrev same_version : RuntimeVersion → RuntimeVersion → Bool
same_version a b = eqb a.major b.major && (eqb a.minor b.minor && eqb a.patch b.patch)

unfoldable pub validate_peer : Hello → Hello → Result ProtocolError NegotiatedHello
validate_peer own peer =
    if not (eqb own.run_id peer.run_id)
    then err ProtocolError.run_mismatch
    else if not (same_version own.runtime_version peer.runtime_version)
    then err ProtocolError.runtime_version_mismatch
    else if not (same_bytes own.action_registry_hash peer.action_registry_hash)
    then err ProtocolError.action_registry_mismatch
    else if not (same_bytes own.object_registry_hash peer.object_registry_hash)
    then err ProtocolError.object_registry_mismatch
    else Fallible.◌>>=◌ (negotiate own.limits peer.limits) λ limits.
      ok (record { capabilities = bit_and own.capabilities peer.capabilities; limits = limits })

-- The bytes of a hello whose two narrowed limits are given.
unfoldable pub hello_body : Hello → ℕ → ℕ → List ℕ
hello_body h segments queued =
    hello_magic
    ++ (to_le 4 protocol_version
        ++ (to_le 16 h.run_id
            ++ (to_le 2 h.runtime_version.major
                ++ (to_le 2 h.runtime_version.minor
                    ++ (to_le 2 h.runtime_version.patch
                        ++ (h.action_registry_hash
                            ++ (h.object_registry_hash
                                ++ (to_le 8 h.capabilities
                                    ++ (to_le 8 h.limits.max_frame_bytes
                                        ++ (to_le 8 h.limits.max_payload_bytes
                                            ++ (to_le 4 segments
                                                ++ (to_le 4 queued
                                                    ++ (to_le 8 h.limits.max_inflight_bytes_per_peer
                                                        ++ (to_le 8
                                                            h.limits.control_reserved_bytes_per_peer
                                                            ++ []))))))))))))))

unfoldable pub encode_hello : Hello → Result ProtocolError (List ℕ)
unfolding hello_body
encode_hello h = Fallible.◌>>=◌ (validate_limits h.limits) λ _.
    Fallible.◌>>=◌ (to_u32 h.limits.max_segments) λ segments.
      Fallible.◌>>=◌ (to_u32 h.limits.max_queued_parcels_per_peer)
        λ queued. ok (hello_body h segments queued)

unfoldable pub read_limits : Action Reader ProtocolError ProtocolLimits
read_limits = do
  frame ← take_uint 8
  payload ← take_uint 8
  segments ← take_uint 4
  queued ← take_uint 4
  inflight ← take_uint 8
  reserved ← take_uint 8
  read (λ _. validate_limits (record {
    max_frame_bytes = frame;
    max_payload_bytes = payload;
    max_segments = segments;
    max_queued_parcels_per_peer = queued;
    max_inflight_bytes_per_peer = inflight;
    control_reserved_bytes_per_peer = reserved;
  }))

-- The magic number and the version, which open both kinds of message.
unfoldable pub read_magic : List ℕ → Action Reader ProtocolError (Unit {0})
read_magic expected = do
  magic ← take_bytes 4
  if not (same_bytes magic expected) then fail ProtocolError.invalid_magic else do
    version ← take_uint 4
    if not (eqb version protocol_version)
        then fail (ProtocolError.invalid_version version)
        else pure tt

unfoldable pub read_version : Action Reader ProtocolError RuntimeVersion
read_version = do
  major ← take_uint 2
  minor ← take_uint 2
  patch ← take_uint 2
  pure (record { major = major; minor = minor; patch = patch })

unfoldable pub read_hello : Action Reader ProtocolError Hello
read_hello = do
  read_magic hello_magic
  run ← take_uint 16
  run_id ← read (λ _. nonzero_id "RunId" run)
  version ← read_version
  actions ← take_bytes 32
  objects ← take_bytes 32
  capabilities ← take_uint 8
  limits ← read_limits
  _ ← read finish
  pure (record {
    run_id = run_id;
    runtime_version = version;
    action_registry_hash = actions;
    object_registry_hash = objects;
    capabilities = capabilities;
    limits = limits;
  })

unfoldable pub decode_hello : List ℕ → Result ProtocolError Hello
unfolding read_hello
decode_hello bytes =
    if not (eqb (length bytes) hello_bytes)
    then err (ProtocolError.invalid_length hello_bytes (length bytes))
    else (read_hello (new_reader bytes)).0
