-- ===== src/Runtime/Wire.antt =====
-- crates/hataori-runtime/src/wire.rs: `encode`, `decode` and `validate_shape`. A header's parts are
-- read by their offsets; an offset outside the header panics. `std::str::from_utf8` is the
-- parameter `is_utf8`, the test that it succeeds.
use hataori_rs.Prelude.{
  ℕ, ◌-◌, Bool, true, false, not, ◌&&◌, ◌||◌, Option, none, some, List, [], ◌∷◌, ◌++◌, Result, ok,
  err, panic, ltb, leb, eqb, if◌then◌else◌, length, get_elem?, take, drop, is_empty,
}
use hataori_rs.Prelude.Bytes.{to_le, from_le, same_bytes}
use hataori_rs.Prelude.Fallible.{◌>>=◌, ◌>>◌, ensure}
use hataori_rs.Protocol.Ids.{RequestId, LocalityId, Channel, ParcelKind, channel_code, kind_code}
use hataori_rs.Protocol.Parcel.{Parcel}
use hataori_rs.Runtime.Message.{RuntimeMessageKind, RuntimeMessage, Segments}
pub mod Shape
pub mod Trip
pub mod Total
pub mod Tests

abbrev pub header_magic : List ℕ
header_magic = b'H' ∷ b'R' ∷ b'T' ∷ b'A' ∷ []

abbrev pub header_version : ℕ
header_version = 1

abbrev pub header_bytes : ℕ
header_bytes = 52

abbrev pub max_error_bytes : ℕ
max_error_bytes = 4096

pub data WireError : Type 0 where
  header_length : ℕ → WireError
  magic : WireError
  version : ℕ → WireError
  invalid_kind : ℕ → WireError
  reserved zero_request zero_action channel identity : WireError
  unexpected_deadline unexpected_payload error_payload : WireError

unfoldable pub message_code : RuntimeMessageKind → ℕ
message_code RuntimeMessageKind.request = 1
message_code RuntimeMessageKind.success = 2
message_code RuntimeMessageKind.failure = 3
message_code RuntimeMessageKind.cancel = 4
message_code RuntimeMessageKind.cancelled = 5
message_code RuntimeMessageKind.duplicate_result_unavailable = 6
message_code RuntimeMessageKind.moved = 7

unfoldable pub message_from : ℕ → Result WireError RuntimeMessageKind
message_from value =
    if eqb value 1
    then ok RuntimeMessageKind.request
    else if eqb value 2
    then ok RuntimeMessageKind.success
    else if eqb value 3
    then ok RuntimeMessageKind.failure
    else if eqb value 4
    then ok RuntimeMessageKind.cancel
    else if eqb value 5
    then ok RuntimeMessageKind.cancelled
    else if eqb value 6
    then ok RuntimeMessageKind.duplicate_result_unavailable
    else if eqb value 7
    then ok RuntimeMessageKind.moved
    else err (WireError.invalid_kind value)

unfoldable pub header : RuntimeMessage → List ℕ
unfolding message_code
header message =
    header_magic
    ++ (header_version
        ∷ message_code message.kind
        ∷ 0
        ∷ 0
        ∷ (to_le 8 message.request.origin
            ++ (to_le 8 message.request.sequence
                ++ (to_le 16 message.action
                    ++ (to_le 4 message.domain ++ (to_le 8 message.deadline_ms ++ []))))))

unfoldable pub encode : RuntimeMessage → Segments
unfolding header
encode message = header message ∷ message.payload

pub record ParcelShape : Type 0 where
  pub channel : Channel
  pub kind : ParcelKind
  pub source : LocalityId
  pub destination : LocalityId

abbrev pub same_channel : Channel → Channel → Bool
same_channel a b = eqb (channel_code a) (channel_code b)

abbrev pub same_kind : ParcelKind → ParcelKind → Bool
same_kind a b = eqb (kind_code a) (kind_code b)

unfoldable pub expected_channel : RuntimeMessageKind → Channel × ParcelKind
expected_channel RuntimeMessageKind.cancel = (Channel.control, ParcelKind.control)
expected_channel _ = (Channel.action, ParcelKind.data_)

-- The end of the route that has to be the request's origin.
unfoldable pub origin_end : RuntimeMessageKind → ParcelShape → LocalityId
origin_end RuntimeMessageKind.request shape = shape.source
origin_end RuntimeMessageKind.cancel shape = shape.source
origin_end _ shape = shape.destination

unfoldable pub deadline_wrong : RuntimeMessageKind → ℕ → Bool
deadline_wrong RuntimeMessageKind.request deadline_ms = eqb deadline_ms 0
deadline_wrong _ deadline_ms = not (eqb deadline_ms 0)

-- `payload.len() != 2 || payload[0].len() != 32 || payload[1].len() != 32`
abbrev pub not_a_location : Segments → Bool
not_a_location (object ∷ location ∷ []) =
    not (eqb (length object) 32) || not (eqb (length location) 32)
not_a_location [] = true
not_a_location (object ∷ []) = true
not_a_location (object ∷ location ∷ more ∷ segments) = true

-- `header[from..to]`
unfoldable pub slice : ℕ → ℕ → List ℕ → Result WireError (List ℕ)
slice from to bytes =
    if leb to (length bytes) then ok (take (to - from) (drop from bytes)) else panic

-- `header[position]`
unfoldable pub byte : ℕ → List ℕ → Result WireError ℕ
byte position bytes = elim (get_elem? bytes position) [ none ↦ panic | some value ↦ ok value ]

module _ (is_utf8 : List ℕ → Bool) where
  abbrev pub not_a_text : Segments → Bool
  not_a_text (text ∷ []) = ltb max_error_bytes (length text) || not (is_utf8 text)
  not_a_text [] = true
  not_a_text (text ∷ more ∷ segments) = true

  -- The last `match` of `validate_shape`.
  unfoldable pub check_payload : RuntimeMessageKind → Segments → Result WireError (Unit {0})
  check_payload RuntimeMessageKind.cancel payload =
      if not (is_empty payload) then err WireError.unexpected_payload else ok tt
  check_payload RuntimeMessageKind.cancelled payload =
      if not (is_empty payload) then err WireError.unexpected_payload else ok tt
  check_payload RuntimeMessageKind.duplicate_result_unavailable payload =
      if not (is_empty payload) then err WireError.unexpected_payload else ok tt
  check_payload RuntimeMessageKind.moved payload =
      if not_a_location payload then err WireError.error_payload else ok tt
  check_payload RuntimeMessageKind.failure payload =
      if not_a_text payload then err WireError.error_payload else ok tt
  check_payload RuntimeMessageKind.request payload = ok tt
  check_payload RuntimeMessageKind.success payload = ok tt

  unfoldable pub validate_shape :
      RuntimeMessageKind → ParcelShape → RequestId → ℕ → Segments → Result WireError (Unit {0})
  unfolding expected_channel origin_end deadline_wrong check_payload
  validate_shape kind shape request deadline_ms payload =
      if not (same_channel shape.channel (expected_channel kind).0)
        || not (same_kind shape.kind (expected_channel kind).1)
      then err WireError.channel
      else if not (eqb (origin_end kind shape) request.origin)
      then err WireError.identity
      else if deadline_wrong kind deadline_ms
      then err WireError.unexpected_deadline
      else check_payload kind payload

  -- `decode` behind the first segment.
  unfoldable pub decode_header : ParcelShape → List ℕ → Segments → Result WireError RuntimeMessage
  decode_header shape bytes payload = do
    ensure (eqb (length bytes) header_bytes) (WireError.header_length (length bytes))
    prefix ← slice 0 4 bytes
    ensure (same_bytes prefix header_magic) WireError.magic
    found_version ← byte 4 bytes
    ensure (eqb found_version header_version) (WireError.version found_version)
    kind_byte ← byte 5 bytes
    kind ← message_from kind_byte
    padding ← slice 6 8 bytes
    ensure (same_bytes padding (0 ∷ 0 ∷ [])) WireError.reserved
    origin ← slice 8 16 bytes
    sequence ← slice 16 24 bytes
    ensure (not (eqb (from_le sequence) 0)) WireError.zero_request
    action ← slice 24 40 bytes
    ensure (not (eqb (from_le action) 0)) WireError.zero_action
    domain ← slice 40 44 bytes
    deadline ← slice 44 52 bytes
    validate_shape kind shape (record { origin = from_le origin; sequence = from_le sequence })
        (from_le deadline) payload
    ok (record {
      kind = kind;
      request = record { origin = from_le origin; sequence = from_le sequence };
      action = from_le action;
      domain = from_le domain;
      deadline_ms = from_le deadline;
      payload = payload;
    })

  unfoldable pub decode : Parcel → Result WireError RuntimeMessage
  unfolding decode_header
  decode p = elim p.segments [
    | [] ↦ err (WireError.header_length 0)
    | bytes ∷ payload ↦
        decode_header
          (record {
            channel = p.channel;
            kind = p.kind;
            source = p.source;
            destination = p.destination;
          })
          bytes payload
  ]
