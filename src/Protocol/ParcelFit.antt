-- ===== src/Protocol/ParcelFit.antt =====
-- crates/hataori-runtime-foundation/src/protocol.rs: which parcels `encode_parcel` accepts.
use hataori_rs.Prelude.{ℕ, ◌+◌, ◌*◌, ◌^◌, ◌<◌, ◌≡◌, ◌↔◌, List, [], ◌∷◌, ok, arith, length}
use hataori_rs.Protocol.Limits.{ProtocolLimits, validate_limits-ok, parcel_fixed_bytes}
use hataori_rs.Protocol.Reader.{to_u32, checked_add}
use hataori_rs.Protocol.Parcel.{
  Parcel, sum_lengths, payload_len, table_len, encoded_len, validate_parcel, frame, encode_parcel,
  decode_parcel,
}
use hataori_rs.Protocol.Frames.{total_len}
use hataori_rs.Protocol.ParcelTrip.{
  IsParcel, Fits, validate_parcel-Fits, decode_parcel-encode_parcel,
}

sum_lengths-ok :
    (total : ℕ) (segments : List (List ℕ))
    → total + total_len segments < 2 ^ 64
    → sum_lengths total segments ≡ ok (total + total_len segments)
unfolding sum_lengths checked_add
sum_lengths-ok total [] h = ground arith
sum_lengths-ok total (segment ∷ segments) h =
    ground (arith, sum_lengths-ok (total + length segment) segments)

-- Under a frame limit below 2 ^ 64, a parcel is valid exactly when its segments, its payload and its
-- whole frame are each within their limit and the limits are valid.
pub validate_parcel_iff :
    (p : Parcel) (l : ProtocolLimits)
    → l.max_frame_bytes < 2 ^ 64
    → (validate_parcel p l ≡ ok tt) ↔ Fits p l
unfolding validate_parcel payload_len encoded_len table_len checked_add
validate_parcel_iff p l h = (
  validate_parcel-Fits p l,
  λ v.
      rw (validate_limits-ok l v.limits, sum_lengths-ok 0 p.segments (omega (arith, v.bytes)))
        (ground (arith, v.segments, v.payload, v.bytes)),
)

encode_parcel-ok :
    (p : Parcel) (l : ProtocolLimits)
    → l.max_frame_bytes < 2 ^ 64
    → length p.segments < 2 ^ 32
    → Fits p l
    → encode_parcel p l ≡ ok (frame p (total_len p.segments) (length p.segments))
unfolding encode_parcel payload_len table_len checked_add to_u32
encode_parcel-ok p l h few v =
    rw ((validate_parcel_iff p l h).1 v, sum_lengths-ok 0 p.segments (omega (arith, v.bytes)))
      (ground (arith, v.bytes))

-- A parcel whose fields fit their Rust types, with fewer than 2 ^ 32 segments, and that is within
-- valid limits, those of the frame and the payload below 2 ^ 64, is encoded: the frame takes exactly
-- the bytes of its header, table and segments, and `decode_parcel` under the same limits reads it
-- back as it was.
pub decode_parcel-encode_parcel-Fits :
    (p : Parcel) (l : ProtocolLimits)
    → IsParcel p
    → length p.segments < 2 ^ 32
    → Fits p l
    → l.max_frame_bytes < 2 ^ 64
    → l.max_payload_bytes < 2 ^ 64
    → (bytes : List ℕ) × (encode_parcel p l ≡ ok bytes)
      × (length bytes ≡ parcel_fixed_bytes + 8 * length p.segments + total_len p.segments)
      × (decode_parcel bytes l ≡ ok p)
decode_parcel-encode_parcel-Fits p l w few v frame_fits payload_fits =
    let e = encode_parcel-ok p l frame_fits few v in
    let (size, small, back) = decode_parcel-encode_parcel p l _ w frame_fits payload_fits e in
    (frame p (total_len p.segments) (length p.segments), e, size, back)
