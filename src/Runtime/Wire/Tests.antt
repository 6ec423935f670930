-- ===== src/Runtime/Wire/Tests.antt =====
-- crates/hataori-runtime/src/wire.rs: a call in its parcel.
use hataori_rs.Prelude.{
  ℕ, ◌↔◌, ◌≡◌, refl, Bool, true, List, [], ◌∷◌, none, ok, err, arith, leb, ◌&&◌,
}
use hataori_rs.Protocol.Ids.{Channel, ParcelKind, channel_code, kind_code}
use hataori_rs.Protocol.Parcel.{Parcel}
use hataori_rs.Runtime.Message.{RuntimeMessageKind, RuntimeMessage}
use hataori_rs.Runtime.Wire.{ParcelShape, WireError, encode, decode, validate_shape}
use hataori_rs.Runtime.Wire.Shape.{IsShaped, validate_shape_iff}
use hataori_rs.Runtime.Wire.Trip.{IsMessage, decode-encode}
use hataori_rs.Runtime.Wire.Total.{Post, Received, decode-Received}

-- Seven-bit bytes.
abbrev is_ascii : List ℕ → Bool
is_ascii [] = true
is_ascii (b ∷ bytes) = leb b 127 && is_ascii bytes

abbrev call : RuntimeMessage
call = record {
  kind = RuntimeMessageKind.request;
  request = record { origin = 4; sequence = 70000 };
  action = 9;
  domain = 1;
  deadline_ms = 250;
  payload = (1 ∷ 2 ∷ []) ∷ [];
}

abbrev call_parcel : Parcel
call_parcel = record {
  run_id = 1;
  message_id = 2;
  channel = Channel.action;
  kind = ParcelKind.data_;
  source = 4;
  destination = 5;
  trace_id = none;
  segments = encode call;
}

abbrev call_shape : ParcelShape
call_shape = record {
  channel = Channel.action;
  kind = ParcelKind.data_;
  source = 4;
  destination = 5;
}

call-IsMessage : IsMessage call
call-IsMessage = record {
  origin = omega arith;
  sequence = omega arith;
  action = omega arith;
  domain = omega arith;
  deadline = omega arith;
}

call-IsShaped :
    IsShaped is_ascii RuntimeMessageKind.request call_shape call.request 250 call.payload
call-IsShaped = record { carried = (refl, refl); routed = refl; timed = omega arith; carries = tt }

-- A failure has to carry one text.
failure_lem :
    validate_shape is_ascii RuntimeMessageKind.failure
      (record call_shape { source = 5; destination = 4 })
      call.request
      0
      ((200 ∷ []) ∷ [])
    ≡ err WireError.error_payload
unfolding validate_shape channel_code kind_code
failure_lem = refl

decode-encode_example : decode is_ascii call_parcel ≡ ok call
decode-encode_example = decode-encode is_ascii call call_parcel call-IsMessage call-IsShaped refl

decode-Received_example : Post (Received is_ascii call_parcel) (decode is_ascii call_parcel)
decode-Received_example = decode-Received is_ascii call_parcel

validate_shape_iff_example :
    (validate_shape is_ascii RuntimeMessageKind.request call_shape call.request 250 call.payload
      ≡ ok tt)
    ↔ IsShaped is_ascii RuntimeMessageKind.request call_shape call.request 250 call.payload
validate_shape_iff_example =
    validate_shape_iff is_ascii RuntimeMessageKind.request call_shape call.request 250 call.payload
