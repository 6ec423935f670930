-- ===== src/Protocol/Parcel.antt =====
-- crates/hataori-runtime-foundation/src/protocol.rs: parcels and their frames. `usize` has 64 bits.
use hataori_rs.Prelude.{
  ℕ, zero, suc, ◌*◌, ◌^◌, not, ◌&&◌, List, [], ◌∷◌, ◌++◌, Option, none, some, Result, ok, err, ltb,
  eqb, if◌then◌else◌, length,
}
use hataori_rs.Prelude.Bytes.{to_le}
use hataori_rs.Prelude.Action.{Action, ◌>>=◌, ◌>>◌, pure, fail, read}
use hataori_rs.Prelude.Fallible
use hataori_rs.Protocol.Ids.{
  ProtocolError, RunId, MessageId, LocalityId, TraceId, Channel, ParcelKind, nonzero_id,
  channel_code, channel_from, kind_code, kind_from,
}
use hataori_rs.Protocol.Limits.{ProtocolLimits, validate_limits, parcel_fixed_bytes}
use hataori_rs.Protocol.Reader.{
  Reader, new_reader, take_bytes, take_uint, finish, checked_add, to_u32,
}
use hataori_rs.Protocol.Hello.{protocol_version, read_magic}

pub record Parcel : Type 0 where
  pub run_id : RunId
  pub message_id : MessageId
  pub channel : Channel
  pub kind : ParcelKind
  pub source : LocalityId
  pub destination : LocalityId
  pub trace_id : Option TraceId
  pub segments : List (List ℕ)

abbrev pub parcel_magic : List ℕ
parcel_magic = b'H' ∷ b'T' ∷ b'P' ∷ b'R' ∷ []

-- The fold of `payload_len`.
unfoldable pub sum_lengths : ℕ → List (List ℕ) → Result ProtocolError ℕ
unfolding checked_add
sum_lengths total [] = ok total
sum_lengths total (segment ∷ segments) =
    Fallible.◌>>=◌ (checked_add total (length segment)) λ total'. sum_lengths total' segments

unfoldable pub payload_len : Parcel → Result ProtocolError ℕ
unfolding sum_lengths
payload_len p = sum_lengths 0 p.segments

-- `usize::checked_mul(8)`.
unfoldable pub table_len : List (List ℕ) → Result ProtocolError ℕ
table_len segments =
    if ltb (length segments * 8) (2 ^ 64)
    then ok (length segments * 8)
    else err ProtocolError.length_overflow

unfoldable pub encoded_len : Parcel → Result ProtocolError ℕ
unfolding payload_len table_len checked_add
encoded_len p = Fallible.◌>>=◌ (payload_len p) λ payload.
    Fallible.◌>>=◌ (table_len p.segments) λ table.
      Fallible.◌>>=◌ (checked_add parcel_fixed_bytes table) λ fixed. checked_add fixed payload

unfoldable pub validate_parcel : Parcel → ProtocolLimits → Result ProtocolError (Unit {0})
unfolding payload_len encoded_len
validate_parcel p l = Fallible.◌>>=◌ (validate_limits l) λ _.
    if ltb l.max_segments (length p.segments)
    then err (ProtocolError.too_many_segments (length p.segments) l.max_segments)
    else Fallible.◌>>=◌ (payload_len p) λ payload.
      if ltb l.max_payload_bytes payload
      then err (ProtocolError.payload_too_large payload l.max_payload_bytes)
      else Fallible.◌>>=◌ (encoded_len p) λ frame.
        if ltb l.max_frame_bytes frame
        then err (ProtocolError.frame_too_large frame l.max_frame_bytes)
        else ok tt

-- The flag byte and the 16 bytes behind it.
unfoldable pub trace_bytes : Option TraceId → List ℕ
trace_bytes none = to_le 1 0 ++ to_le 16 0
trace_bytes (some id) = to_le 1 1 ++ to_le 16 id

unfoldable pub length_table : List (List ℕ) → List ℕ
length_table [] = []
length_table (segment ∷ segments) = to_le 8 (length segment) ++ length_table segments

unfoldable pub contents : List (List ℕ) → List ℕ
contents [] = []
contents (segment ∷ segments) = segment ++ contents segments

-- The frame of a parcel whose payload length and segment count are given.
unfoldable pub frame : Parcel → ℕ → ℕ → List ℕ
frame p payload segment_count =
    parcel_magic
    ++ (to_le 4 protocol_version
        ++ (to_le 16 p.run_id
            ++ (to_le 16 p.message_id
                ++ (to_le 1 (channel_code p.channel)
                    ++ (to_le 1 (kind_code p.kind)
                        ++ (to_le 8 p.source
                            ++ (to_le 8 p.destination
                                ++ (trace_bytes p.trace_id
                                    ++ (to_le 8 payload
                                        ++ (to_le 4 segment_count
                                            ++ (length_table p.segments
                                                ++ (contents p.segments ++ []))))))))))))

unfoldable pub encode_parcel : Parcel → ProtocolLimits → Result ProtocolError (List ℕ)
unfolding validate_parcel payload_len table_len checked_add
encode_parcel p l = Fallible.◌>>=◌ (validate_parcel p l) λ _.
    Fallible.◌>>=◌ (payload_len p) λ payload. Fallible.◌>>=◌ (table_len p.segments) λ table.
      Fallible.◌>>=◌ (checked_add parcel_fixed_bytes table) λ fixed.
        Fallible.◌>>=◌ (checked_add fixed payload)
          λ _. Fallible.◌>>=◌ (to_u32 (length p.segments)) λ count. ok (frame p payload count)

-- `match trace_flag`: flag 0 wants the value 0, and flag 1 another.
unfoldable pub trace_from : ℕ → ℕ → Result ProtocolError (Option TraceId)
trace_from flag value =
    if eqb flag 0 && eqb value 0
    then ok none
    else if eqb flag 1
    then (Fallible.◌>>=◌ (nonzero_id "TraceId" value) λ id. ok (some id))
    else err (ProtocolError.invalid_trace_flag flag)

-- The loop over the length table: the lengths and their total.
unfoldable pub read_lengths : ℕ → ℕ → ℕ → Action Reader ProtocolError (List ℕ × ℕ)
read_lengths max_payload zero total = pure ([], total)
read_lengths max_payload (suc count) total = do
  len ← take_uint 8
  total' ← read (λ _. checked_add total len)
  if ltb max_payload total'
      then fail (ProtocolError.payload_too_large total' max_payload)
      else do (lengths, final) ← read_lengths max_payload count total'; pure (len ∷ lengths, final)

unfoldable pub read_segments : List ℕ → Action Reader ProtocolError (List (List ℕ))
read_segments [] = pure []
read_segments (len ∷ lengths) = do
  segment ← take_bytes len
  segments ← read_segments lengths
  pure (segment ∷ segments)

-- The trace flag and value.
unfoldable pub read_trace : Action Reader ProtocolError (Option TraceId)
read_trace = do flag ← take_uint 1; value ← take_uint 16; read (λ _. trace_from flag value)

-- The declared payload length, the segment count, the table and the segments.
unfoldable pub read_payload : ProtocolLimits → Action Reader ProtocolError (List (List ℕ))
read_payload l = do
  declared ← take_uint 8
  segment_count ← take_uint 4
  if ltb l.max_segments segment_count
      then fail (ProtocolError.too_many_segments segment_count l.max_segments)
      else if ltb l.max_payload_bytes declared
      then fail (ProtocolError.payload_too_large declared l.max_payload_bytes)
      else do
        (lengths, total) ← read_lengths l.max_payload_bytes segment_count 0
        if not (eqb total declared)
            then fail (ProtocolError.payload_length_mismatch declared total)
            else read_segments lengths

unfoldable pub read_parcel : ProtocolLimits → Action Reader ProtocolError Parcel
read_parcel l = do
  read_magic parcel_magic
  run ← take_uint 16
  run_id ← read (λ _. nonzero_id "RunId" run)
  message ← take_uint 16
  message_id ← read (λ _. nonzero_id "MessageId" message)
  channel_byte ← take_uint 1
  channel ← read (λ _. channel_from channel_byte)
  kind_byte ← take_uint 1
  kind ← read (λ _. kind_from kind_byte)
  source ← take_uint 8
  destination ← take_uint 8
  trace_id ← read_trace
  segments ← read_payload l
  _ ← read finish
  let parcel : Parcel = record {
    run_id = run_id;
    message_id = message_id;
    channel = channel;
    kind = kind;
    source = source;
    destination = destination;
    trace_id = trace_id;
    segments = segments;
  }
  _ ← read (λ _. validate_parcel parcel l)
  pure parcel

unfoldable pub decode_parcel : List ℕ → ProtocolLimits → Result ProtocolError Parcel
unfolding read_parcel
decode_parcel bytes l = Fallible.◌>>=◌ (validate_limits l) λ _.
    if ltb l.max_frame_bytes (length bytes)
    then err (ProtocolError.frame_too_large (length bytes) l.max_frame_bytes)
    else (read_parcel l (new_reader bytes)).0
