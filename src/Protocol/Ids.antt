-- ===== src/Protocol/Ids.antt =====
-- crates/hataori-runtime-foundation/src/protocol.rs: errors and identities. An identity is the
-- number that its newtype wraps; the constructors that refuse zero are kept.
use Prim.Native.String.{String}
use hataori_rs.Prelude.{ℕ, ◌<◌, ◌≡◌, refl, arith, Result, ok, err, eqb, if◌then◌else◌}
use hataori_rs.Prelude.Fallible.{◌>>=◌}

pub data ProtocolError : Type 0 where
  invalid_magic length_overflow invalid_limits run_mismatch : ProtocolError
  runtime_version_mismatch action_registry_mismatch object_registry_mismatch : ProtocolError
  invalid_version : ℕ → ProtocolError
  -- expected, actual
  invalid_length : ℕ → ℕ → ProtocolError
  zero_id : String → ProtocolError
  invalid_channel : ℕ → ProtocolError
  invalid_kind : ℕ → ProtocolError
  invalid_trace_flag : ℕ → ProtocolError
  -- actual, limit
  too_many_segments : ℕ → ℕ → ProtocolError
  payload_too_large : ℕ → ℕ → ProtocolError
  frame_too_large : ℕ → ℕ → ProtocolError
  -- declared, actual
  payload_length_mismatch : ℕ → ℕ → ProtocolError
  trailing_bytes : ℕ → ProtocolError

-- `(value != 0).then_some(..).ok_or(ProtocolError::ZeroId(name))`.
unfoldable pub nonzero_id : String → ℕ → Result ProtocolError ℕ
nonzero_id name value = if eqb value 0 then err (ProtocolError.zero_id name) else ok value

abbrev pub RunId : Type 0
RunId = ℕ

abbrev pub LocalityId : Type 0
LocalityId = ℕ

abbrev pub DomainId : Type 0
DomainId = ℕ

abbrev pub MessageId : Type 0
MessageId = ℕ

abbrev pub ActionId : Type 0
ActionId = ℕ

abbrev pub TraceId : Type 0
TraceId = ℕ

pub record ObjectId : Type 0 where
  pub run : RunId
  pub unique : ℕ

unfoldable pub new_object_id : RunId → ℕ → Result ProtocolError ObjectId
unfolding nonzero_id
new_object_id run unique = do
  value ← nonzero_id "ObjectId.unique" unique
  ok (record { run = run; unique = value })

pub record ObjectLocation : Type 0 where
  pub locality : LocalityId
  pub domain : DomainId
  pub slot : ℕ
  pub generation : ℕ
  pub epoch : ℕ

unfoldable pub new_object_location :
    LocalityId → DomainId → ℕ → ℕ → ℕ → Result ProtocolError ObjectLocation
unfolding nonzero_id
new_object_location locality domain slot generation epoch = do
  slot' ← nonzero_id "ObjectLocation.slot" slot
  generation' ← nonzero_id "ObjectLocation.generation" generation
  epoch' ← nonzero_id "ObjectLocation.epoch" epoch
  ok (record {
    locality = locality;
    domain = domain;
    slot = slot';
    generation = generation';
    epoch = epoch';
  })

pub record RequestId : Type 0 where
  pub origin : LocalityId
  pub sequence : ℕ

unfoldable pub new_request_id : LocalityId → ℕ → Result ProtocolError RequestId
unfolding nonzero_id
new_request_id origin sequence = do
  value ← nonzero_id "RequestId.sequence" sequence
  ok (record { origin = origin; sequence = value })

pub record RuntimeVersion : Type 0 where
  pub major : ℕ
  pub minor : ℕ
  pub patch : ℕ

pub data Channel : Type 0 where
  control action bulk : Channel

unfoldable pub channel_code : Channel → ℕ
channel_code Channel.control = 0
channel_code Channel.action = 1
channel_code Channel.bulk = 2

unfoldable pub channel_from : ℕ → Result ProtocolError Channel
channel_from value =
    if eqb value 0
    then ok Channel.control
    else if eqb value 1
    then ok Channel.action
    else if eqb value 2
    then ok Channel.bulk
    else err (ProtocolError.invalid_channel value)

pub data ParcelKind : Type 0 where
  control data_ shutdown : ParcelKind

unfoldable pub kind_code : ParcelKind → ℕ
kind_code ParcelKind.control = 0
kind_code ParcelKind.data_ = 1
kind_code ParcelKind.shutdown = 2

unfoldable pub kind_from : ℕ → Result ProtocolError ParcelKind
kind_from value =
    if eqb value 0
    then ok ParcelKind.control
    else if eqb value 1
    then ok ParcelKind.data_
    else if eqb value 2
    then ok ParcelKind.shutdown
    else err (ProtocolError.invalid_kind value)

pub channel_from-code : (channel : Channel) → channel_from (channel_code channel) ≡ ok channel
unfolding channel_from channel_code
channel_from-code Channel.control = refl
channel_from-code Channel.action = refl
channel_from-code Channel.bulk = refl

pub kind_from-code : (kind : ParcelKind) → kind_from (kind_code kind) ≡ ok kind
unfolding kind_from kind_code
kind_from-code ParcelKind.control = refl
kind_from-code ParcelKind.data_ = refl
kind_from-code ParcelKind.shutdown = refl

pub nonzero_id_lem : (name : String) (value : ℕ) → 0 < value → nonzero_id name value ≡ ok value
unfolding nonzero_id
nonzero_id_lem name value h = ground arith
