-- ===== src/Runtime/Wire/Trip.antt =====
-- crates/hataori-runtime/src/wire.rs: a message is read back as it was written.
use hataori_rs.Prelude.{ℕ, ◌^◌, ◌<◌, ◌≡◌, refl, List, [], ◌∷◌, Bool, false, ok, arith, length, eqb}
use hataori_rs.Prelude.Bytes.{to_le, from_le-to_le}
use hataori_rs.Protocol.Parcel.{Parcel}
use hataori_rs.Runtime.Message.{RuntimeMessageKind, RuntimeMessage}
use hataori_rs.Runtime.Wire.{
  ParcelShape, header, encode, message_code, message_from, slice, byte, decode_header, decode,
  validate_shape, header_bytes, header_magic,
}
use hataori_rs.Runtime.Wire.Shape.{IsShaped, validate_shape_iff}

-- The ranges that the Rust types give.
pub record IsMessage (message : RuntimeMessage) : Type 0 where
  pub origin : message.request.origin < 256 ^ 8
  pub sequence : (0 < message.request.sequence) × (message.request.sequence < 256 ^ 8)
  pub action : (0 < message.action) × (message.action < 256 ^ 16)
  pub domain : message.domain < 256 ^ 4
  pub deadline : message.deadline_ms < 256 ^ 8

message_from-code : (kind : RuntimeMessageKind) → message_from (message_code kind) ≡ ok kind
unfolding message_from message_code
message_from-code RuntimeMessageKind.request = refl
message_from-code RuntimeMessageKind.success = refl
message_from-code RuntimeMessageKind.failure = refl
message_from-code RuntimeMessageKind.cancel = refl
message_from-code RuntimeMessageKind.cancelled = refl
message_from-code RuntimeMessageKind.duplicate_result_unavailable = refl
message_from-code RuntimeMessageKind.moved = refl

module _ (m : RuntimeMessage) where
  length-header : length (header m) ≡ header_bytes
  unfolding header to_le
  length-header = refl

  prefix_read : slice 0 4 (header m) ≡ ok header_magic
  unfolding slice header to_le
  prefix_read = refl

  version_read : byte 4 (header m) ≡ ok 1
  unfolding byte header
  version_read = refl

  kind_read : byte 5 (header m) ≡ ok (message_code m.kind)
  unfolding byte header
  kind_read = refl

  padding_read : slice 6 8 (header m) ≡ ok (0 ∷ 0 ∷ [])
  unfolding slice header to_le
  padding_read = refl

  origin_read : slice 8 16 (header m) ≡ ok (to_le 8 m.request.origin)
  unfolding slice header to_le
  origin_read = refl

  sequence_read : slice 16 24 (header m) ≡ ok (to_le 8 m.request.sequence)
  unfolding slice header to_le
  sequence_read = refl

  action_read : slice 24 40 (header m) ≡ ok (to_le 16 m.action)
  unfolding slice header to_le
  action_read = refl

  domain_read : slice 40 44 (header m) ≡ ok (to_le 4 m.domain)
  unfolding slice header to_le
  domain_read = refl

  deadline_read : slice 44 52 (header m) ≡ ok (to_le 8 m.deadline_ms)
  unfolding slice header to_le
  deadline_read = refl

module _ (is_utf8 : List ℕ → Bool) (m : RuntimeMessage) where
  decode_header-header :
      (shape : ParcelShape)
      → IsMessage m
      → validate_shape is_utf8 m.kind shape m.request m.deadline_ms m.payload ≡ ok tt
      → decode_header is_utf8 shape (header m) m.payload ≡ ok m
  unfolding decode_header
  decode_header-header shape v shaped =
      let some_sequence : eqb m.request.sequence 0 ≡ false = ground (arith, v.sequence) in
      let some_action : eqb m.action 0 ≡ false = ground (arith, v.action) in
      rw
        (
          length-header m,
          prefix_read m,
          version_read m,
          kind_read m,
          message_from-code m.kind,
          padding_read m,
          origin_read m,
          sequence_read m,
          from_le-to_le 8 m.request.sequence v.sequence.1,
          some_sequence,
          action_read m,
          from_le-to_le 16 m.action v.action.1,
          some_action,
          domain_read m,
          deadline_read m,
          from_le-to_le 8 m.request.origin v.origin,
          from_le-to_le 4 m.domain v.domain,
          from_le-to_le 8 m.deadline_ms v.deadline,
          shaped,
        )
        refl

-- Whatever the test for UTF-8, a message whose fields fit their Rust types, in a parcel of the
-- channel, kind, route and payload that its kind asks for, is read back as it was written.
pub decode-encode :
    (is_utf8 : List ℕ → Bool) (m : RuntimeMessage) (p : Parcel)
    → IsMessage m
    → IsShaped is_utf8 m.kind
        (record {
          channel = p.channel;
          kind = p.kind;
          source = p.source;
          destination = p.destination;
        })
        m.request
        m.deadline_ms
        m.payload
    → p.segments ≡ encode m
    → decode is_utf8 p ≡ ok m
unfolding decode encode
decode-encode is_utf8 m p v shaped e = rw e (
    decode_header-header is_utf8 m _ v
      ((validate_shape_iff is_utf8 m.kind _ m.request m.deadline_ms m.payload).1 shaped))
