-- ===== src/Protocol/Tests.antt =====
-- crates/hataori-runtime-foundation/src/protocol.rs: two peers, a hello and a parcel.
use hataori_rs.Prelude.{ℕ, ◌≡◌, refl, List, [], ◌∷◌, replicate, length, some, ok, arith, ◌↔◌}
use hataori_rs.Protocol.Ids.{Channel, ParcelKind}
use hataori_rs.Protocol.Limits.{
  ProtocolLimits, default_limits, negotiate, IsValid, AtMost, negotiate_agree,
}
use hataori_rs.Protocol.Hello.{Hello, encode_hello, decode_hello, validate_peer}
use hataori_rs.Protocol.HelloTrip.{IsHello, decode_hello-encode_hello}
use hataori_rs.Protocol.Parcel.{Parcel, encode_parcel, decode_parcel, validate_parcel}
use hataori_rs.Protocol.ParcelTrip.{IsParcel, Fits}
use hataori_rs.Protocol.ParcelFit.{validate_parcel_iff, decode_parcel-encode_parcel-Fits}
use hataori_rs.Protocol.PeerCheck.{Accepts, validate_peer_comm, validate_peer_iff}

abbrev small_limits : ProtocolLimits
small_limits = record {
  max_frame_bytes = 200;
  max_payload_bytes = 16;
  max_segments = 4;
  max_queued_parcels_per_peer = 8;
  max_inflight_bytes_per_peer = 400;
  control_reserved_bytes_per_peer = 50;
}

small-IsValid : IsValid small_limits
small-IsValid = omega arith

default-IsValid : IsValid default_limits
default-IsValid = omega arith

small-AtMost : AtMost small_limits default_limits
small-AtMost = omega arith

itself-AtMost : AtMost small_limits small_limits
itself-AtMost = omega arith

abbrev hello : Hello
hello = record {
  run_id = 99;
  runtime_version = record { major = 1; minor = 2; patch = 3 };
  action_registry_hash = replicate 32 5;
  object_registry_hash = replicate 32 6;
  capabilities = 12;
  limits = small_limits;
}

abbrev other_hello : Hello
other_hello = record hello { capabilities = 10; limits = default_limits }

hello-IsHello : IsHello hello
hello-IsHello = record {
  run = omega arith;
  major = omega arith;
  minor = omega arith;
  patch = omega arith;
  actions = refl;
  objects = refl;
  capabilities = omega arith;
  frame = omega arith;
  payload = omega arith;
  inflight = omega arith;
  reserved = omega arith;
}

abbrev parcel : Parcel
parcel = record {
  run_id = 99;
  message_id = 7;
  channel = Channel.action;
  kind = ParcelKind.data_;
  source = 0;
  destination = 1;
  trace_id = some 5;
  segments = (1 ∷ 2 ∷ []) ∷ [] ∷ (3 ∷ []) ∷ [];
}

parcel-IsParcel : IsParcel parcel
parcel-IsParcel = record {
  run = omega arith;
  message = omega arith;
  source = omega arith;
  destination = omega arith;
  trace = omega arith;
}

parcel-Fits : Fits parcel small_limits
parcel-Fits = record {
  limits = small-IsValid;
  segments = omega arith;
  payload = omega arith;
  bytes = omega arith;
}

negotiate_agree_example :
    (agreed : ProtocolLimits) × (negotiate small_limits default_limits ≡ ok agreed)
    × (negotiate default_limits small_limits ≡ ok agreed)
    × IsValid agreed
    × AtMost agreed small_limits
    × AtMost agreed default_limits
    × AtMost small_limits agreed
negotiate_agree_example =
    negotiate_agree small_limits default_limits small_limits small-IsValid default-IsValid
      itself-AtMost small-AtMost

decode_hello-encode_hello_example :
    (bytes : List ℕ) × (encode_hello hello ≡ ok bytes)
    × (length bytes ≡ 142)
    × (decode_hello bytes ≡ ok hello)
decode_hello-encode_hello_example =
    decode_hello-encode_hello hello hello-IsHello small-IsValid (omega arith) (omega arith)

decode_parcel-encode_parcel-Fits_example :
    (bytes : List ℕ) × (encode_parcel parcel small_limits ≡ ok bytes)
    × (length bytes ≡ 114)
    × (decode_parcel bytes small_limits ≡ ok parcel)
decode_parcel-encode_parcel-Fits_example =
    decode_parcel-encode_parcel-Fits parcel small_limits parcel-IsParcel (omega arith) parcel-Fits
      (omega arith) (omega arith)

validate_parcel_iff_example :
    (validate_parcel parcel small_limits ≡ ok tt) ↔ Fits parcel small_limits
validate_parcel_iff_example = validate_parcel_iff parcel small_limits (omega arith)

validate_peer_comm_example : validate_peer hello other_hello ≡ validate_peer other_hello hello
validate_peer_comm_example = validate_peer_comm hello other_hello

validate_peer_iff_example :
    (validate_peer hello other_hello ≡ ok (record { capabilities = 8; limits = small_limits }))
    ↔ Accepts hello other_hello (record { capabilities = 8; limits = small_limits })
validate_peer_iff_example =
    validate_peer_iff hello other_hello (record { capabilities = 8; limits = small_limits })
