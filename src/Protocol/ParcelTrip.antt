-- ===== src/Protocol/ParcelTrip.antt =====
-- crates/hataori-runtime-foundation/src/protocol.rs: a parcel is read back as it was written.
use hataori_rs.Prelude.{
  ℕ, ◌+◌, ◌*◌, ◌^◌, ◌<◌, ◌≤◌, ◌≡◌, refl, true, false, List, [], ◌++◌, ok, arith, length, inl, inr,
  Result-cases, length-append, ltb, subst, eqb, Option, none, some,
}
use hataori_rs.Prelude.Bytes.{to_le, length-to_le}
use hataori_rs.Protocol.Ids.{
  Channel, ParcelKind, TraceId, nonzero_id_lem, channel_code, kind_code, channel_from-code,
  kind_from-code,
}
use hataori_rs.Protocol.Limits.{
  ProtocolLimits, validate_limits, validate_limits-ok, validate_limits-IsValid, IsValid,
  parcel_fixed_bytes,
}
use hataori_rs.Protocol.Reader.{
  Reader, new_reader, to_u32, checked_add, Ahead, new_reader-Ahead, take_uint-Ahead, finish-Ahead,
}
use hataori_rs.Protocol.HelloTrip.{read_magic-Ahead}
use hataori_rs.Protocol.Parcel.{
  Parcel, parcel_magic, sum_lengths, table_len, validate_parcel, trace_bytes, length_table,
  contents, frame, encode_parcel, read_payload, read_parcel, decode_parcel,
}
use hataori_rs.Protocol.Frames.{
  total_len, sum_lengths-total_len, length-length_table, length-contents, read_lengths-Ahead,
  read_segments-Ahead, IsTrace, read_trace-Ahead,
}

-- The ranges that the Rust types give.
pub record IsParcel (p : Parcel) : Type 0 where
  pub run : (0 < p.run_id) × (p.run_id < 256 ^ 16)
  pub message : (0 < p.message_id) × (p.message_id < 256 ^ 16)
  pub source : p.source < 256 ^ 8
  pub destination : p.destination < 256 ^ 8
  pub trace : IsTrace p.trace_id

-- What a frame of a parcel under given limits has.
pub record Fits (p : Parcel) (l : ProtocolLimits) : Type 0 where
  pub limits : IsValid l
  pub segments : length p.segments ≤ l.max_segments
  pub payload : total_len p.segments ≤ l.max_payload_bytes
  pub bytes : parcel_fixed_bytes + 8 * length p.segments + total_len p.segments ≤ l.max_frame_bytes

channel_small : (channel : Channel) → channel_code channel < 256 ^ 1
unfolding channel_code
channel_small Channel.control = omega arith
channel_small Channel.action = omega arith
channel_small Channel.bulk = omega arith

kind_small : (kind : ParcelKind) → kind_code kind < 256 ^ 1
unfolding kind_code
kind_small ParcelKind.control = omega arith
kind_small ParcelKind.data_ = omega arith
kind_small ParcelKind.shutdown = omega arith

length-trace_bytes : (trace : Option TraceId) → length (trace_bytes trace) ≡ 17
unfolding trace_bytes
length-trace_bytes none = simp (length-append, length-to_le)
length-trace_bytes (some id) = simp (length-append, length-to_le)

module _ (p : Parcel) (l : ProtocolLimits) where
  pub validate_parcel-Fits : validate_parcel p l ≡ ok tt → Fits p l
  unfolding validate_parcel table_len checked_add
  validate_parcel-Fits e = elim (Result-cases (validate_limits l)) [
    | inl (m, valid) ↦ elim (Result-cases (sum_lengths 0 p.segments)) [
      | inl (n, summed) ↦
          let (total, small) = sum_lengths-total_len 0 p.segments (omega arith) summed in
          record {
            limits = validate_limits-IsValid l m valid;
            segments = ground arith;
            payload = ground arith;
            bytes = ground arith;
          }
      | inr (inl (x, bad)) ↦ absurd (ground arith)
      | inr (inr bad) ↦ absurd (ground arith)
    ]
    | inr (inl (x, bad)) ↦ absurd (ground arith)
    | inr (inr bad) ↦ absurd (ground arith)
  ]

  encoded :
      (bytes : List ℕ)
      → encode_parcel p l ≡ ok bytes
      → (validate_parcel p l ≡ ok tt)
        × (length p.segments < 2 ^ 32)
        × (bytes ≡ frame p (total_len p.segments) (length p.segments))
  unfolding encode_parcel to_u32
  encoded bytes e = elim (Result-cases (validate_parcel p l)) [
    | inl (_, valid) ↦ elim (Result-cases (sum_lengths 0 p.segments)) [
      | inl (n, summed) ↦
          let (total, small) = sum_lengths-total_len 0 p.segments (omega arith) summed in
          (valid, ground arith, ground arith)
      | inr (inl (x, bad)) ↦ absurd (ground arith)
      | inr (inr bad) ↦ absurd (ground arith)
    ]
    | inr (inl (x, bad)) ↦ absurd (ground arith)
    | inr (inr bad) ↦ absurd (ground arith)
  ]

  read_payload-Ahead :
      (r : Reader) (rest : List ℕ)
      → Fits p l
      → l.max_payload_bytes < 2 ^ 64
      → length p.segments < 2 ^ 32
      → Ahead r (
          to_le 8 (total_len p.segments)
          ++ (to_le 4 (length p.segments)
              ++ (length_table p.segments ++ (contents p.segments ++ rest))))
      → (r' : Reader) × (read_payload l r ≡ (ok p.segments, r')) × Ahead r' rest
  unfolding read_payload
  read_payload-Ahead r rest v fits few a =
      let (r1, e1, a1) =
        take_uint-Ahead r 8 (total_len p.segments) _ a (omega (arith, v.payload)) in
      let (r2, e2, a2) = take_uint-Ahead r1 4 (length p.segments) _ a1 (omega arith) in
      let (r3, e3, a3) =
        read_lengths-Ahead l.max_payload_bytes p.segments 0 _ r2 fits (omega (arith, v.payload))
          a2 in
      let (r4, e4, a4) = read_segments-Ahead p.segments rest r3 a3 in
      let counted : ltb l.max_segments (length p.segments) ≡ false = ground (arith, v.segments) in
      let small : ltb l.max_payload_bytes (total_len p.segments) ≡ false =
        ground (arith, v.payload) in
      let agreed : eqb (0 + total_len p.segments) (total_len p.segments) ≡ true = ground arith in
      (r4, rw (e1, e2, counted, small, e3, agreed, e4) refl, a4)

  read_parcel-Ahead :
      (r : Reader)
      → IsParcel p
      → Fits p l
      → validate_parcel p l ≡ ok tt
      → l.max_payload_bytes < 2 ^ 64
      → length p.segments < 2 ^ 32
      → Ahead r (frame p (total_len p.segments) (length p.segments))
      → (read_parcel l r).0 ≡ ok p
  unfolding read_parcel frame
  read_parcel-Ahead r w v valid fits few a =
      let (r1, e1, a1) = read_magic-Ahead r parcel_magic _ refl a in
      let (r2, e2, a2) = take_uint-Ahead r1 16 p.run_id _ a1 w.run.1 in
      let (r3, e3, a3) = take_uint-Ahead r2 16 p.message_id _ a2 w.message.1 in
      let (r4, e4, a4) =
        take_uint-Ahead r3 1 (channel_code p.channel) _ a3 (channel_small p.channel) in
      let (r5, e5, a5) = take_uint-Ahead r4 1 (kind_code p.kind) _ a4 (kind_small p.kind) in
      let (r6, e6, a6) = take_uint-Ahead r5 8 p.source _ a5 w.source in
      let (r7, e7, a7) = take_uint-Ahead r6 8 p.destination _ a6 w.destination in
      let (r8, e8, a8) = read_trace-Ahead p.trace_id _ r7 w.trace a7 in
      let (r9, e9, a9) = read_payload-Ahead r8 [] v fits few a8 in
      rw
        (
          e1,
          e2,
          nonzero_id_lem "RunId" p.run_id w.run.0,
          e3,
          nonzero_id_lem "MessageId" p.message_id w.message.0,
          e4,
          channel_from-code p.channel,
          e5,
          kind_from-code p.kind,
          e6,
          e7,
          e8,
          e9,
          finish-Ahead r9 a9,
          valid,
        )
        refl

  length-frame :
      (payload count : ℕ)
      → length (frame p payload count)
        ≡ parcel_fixed_bytes + 8 * length p.segments + total_len p.segments
  unfolding frame
  length-frame payload count =
      simp (length-append, length-to_le, length-trace_bytes, length-length_table, length-contents)
        (omega arith)

  -- A parcel whose fields fit their Rust types and that `encode_parcel` accepts fills exactly the
  -- bytes that its header, table and segments take, no more than `max_frame_bytes`, and is read
  -- back by `decode_parcel` under the same limits as it was.
  pub decode_parcel-encode_parcel :
      (bytes : List ℕ)
      → IsParcel p
      → l.max_frame_bytes < 2 ^ 64
      → l.max_payload_bytes < 2 ^ 64
      → encode_parcel p l ≡ ok bytes
      → (length bytes ≡ parcel_fixed_bytes + 8 * length p.segments + total_len p.segments)
        × (length bytes ≤ l.max_frame_bytes)
        × (decode_parcel bytes l ≡ ok p)
  unfolding decode_parcel
  decode_parcel-encode_parcel bytes w frame_fits payload_fits e =
      let (valid, few, same) = encoded bytes e in
      let v = validate_parcel-Fits valid in
      let size : length bytes ≡ parcel_fixed_bytes + 8 * length p.segments + total_len p.segments =
        rw same (length-frame _ _) in
      let small : ltb l.max_frame_bytes (length bytes) ≡ false = ground (arith, v.bytes) in
      (
        size,
        omega (arith, v.bytes),
        rw (validate_limits-ok l v.limits, small)
            (read_parcel-Ahead (new_reader bytes) w v valid payload_fits few (
              subst (Ahead (new_reader bytes)) same
                (new_reader-Ahead bytes (omega (arith, v.bytes))))),
      )
