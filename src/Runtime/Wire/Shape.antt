-- ===== src/Runtime/Wire/Shape.antt =====
-- crates/hataori-runtime/src/wire.rs: which shapes `validate_shape` accepts.
use hataori_rs.Prelude.{
  ℕ, ◌≤◌, ◌<◌, ◌≡◌, refl, ◌↔◌, ◌&&◌, not, Bool, true, List, [], ◌∷◌, ok, length, arith, eqb,
}
use hataori_rs.Protocol.Ids.{RequestId, Channel, ParcelKind, channel_code, kind_code}
use hataori_rs.Runtime.Message.{RuntimeMessageKind, Segments}
use hataori_rs.Runtime.Wire.{
  ParcelShape, expected_channel, origin_end, deadline_wrong, check_payload, validate_shape,
  same_channel, same_kind, max_error_bytes,
}

-- The channel and kind of parcel that carry a message: control for a cancellation.
abbrev pub Carried : RuntimeMessageKind → ParcelShape → Type 0
Carried RuntimeMessageKind.cancel shape =
    (shape.channel ≡ Channel.control) × (shape.kind ≡ ParcelKind.control)
Carried _ shape = (shape.channel ≡ Channel.action) × (shape.kind ≡ ParcelKind.data_)

-- Calls and cancellations come from the request's origin, and answers go to it.
abbrev pub Routed : RuntimeMessageKind → ParcelShape → RequestId → Type 0
Routed RuntimeMessageKind.request shape request = shape.source ≡ request.origin
Routed RuntimeMessageKind.cancel shape request = shape.source ≡ request.origin
Routed _ shape request = shape.destination ≡ request.origin

-- Only a call has a deadline.
abbrev pub Timed : RuntimeMessageKind → ℕ → Type 0
Timed RuntimeMessageKind.request deadline_ms = 0 < deadline_ms
Timed _ deadline_ms = deadline_ms ≡ 0

same_channel_iff : (a b : Channel) → (same_channel a b ≡ true) ↔ (a ≡ b)
unfolding channel_code
same_channel_iff Channel.control Channel.control = (λ e. refl, λ e. refl)
same_channel_iff Channel.action Channel.action = (λ e. refl, λ e. refl)
same_channel_iff Channel.bulk Channel.bulk = (λ e. refl, λ e. refl)
same_channel_iff Channel.control Channel.action = (λ e. cc, λ e. cc)
same_channel_iff Channel.control Channel.bulk = (λ e. cc, λ e. cc)
same_channel_iff Channel.action Channel.control = (λ e. cc, λ e. cc)
same_channel_iff Channel.action Channel.bulk = (λ e. cc, λ e. cc)
same_channel_iff Channel.bulk Channel.control = (λ e. cc, λ e. cc)
same_channel_iff Channel.bulk Channel.action = (λ e. cc, λ e. cc)

same_kind_iff : (a b : ParcelKind) → (same_kind a b ≡ true) ↔ (a ≡ b)
unfolding kind_code
same_kind_iff ParcelKind.control ParcelKind.control = (λ e. refl, λ e. refl)
same_kind_iff ParcelKind.data_ ParcelKind.data_ = (λ e. refl, λ e. refl)
same_kind_iff ParcelKind.shutdown ParcelKind.shutdown = (λ e. refl, λ e. refl)
same_kind_iff ParcelKind.control ParcelKind.data_ = (λ e. cc, λ e. cc)
same_kind_iff ParcelKind.control ParcelKind.shutdown = (λ e. cc, λ e. cc)
same_kind_iff ParcelKind.data_ ParcelKind.control = (λ e. cc, λ e. cc)
same_kind_iff ParcelKind.data_ ParcelKind.shutdown = (λ e. cc, λ e. cc)
same_kind_iff ParcelKind.shutdown ParcelKind.control = (λ e. cc, λ e. cc)
same_kind_iff ParcelKind.shutdown ParcelKind.data_ = (λ e. cc, λ e. cc)

-- The three tests in front of the payload's, by what they test.
module _ (shape : ParcelShape) (request : RequestId) (deadline_ms : ℕ) where
  abbrev passes_front : RuntimeMessageKind → Bool
  passes_front kind =
      (same_channel shape.channel (expected_channel kind).0
        && same_kind shape.kind (expected_channel kind).1)
      && (eqb (origin_end kind shape) request.origin && not (deadline_wrong kind deadline_ms))

  front_iff :
      (kind : RuntimeMessageKind)
      → (passes_front kind ≡ true)
        ↔ (Carried kind shape × Routed kind shape request × Timed kind deadline_ms)
  unfolding expected_channel origin_end deadline_wrong
  front_iff RuntimeMessageKind.request = ground (
    arith,
    same_channel_iff shape.channel Channel.action,
    same_kind_iff shape.kind ParcelKind.data_,
  )
  front_iff RuntimeMessageKind.success = ground (
    arith,
    same_channel_iff shape.channel Channel.action,
    same_kind_iff shape.kind ParcelKind.data_,
  )
  front_iff RuntimeMessageKind.failure = ground (
    arith,
    same_channel_iff shape.channel Channel.action,
    same_kind_iff shape.kind ParcelKind.data_,
  )
  front_iff RuntimeMessageKind.cancel = ground (
    arith,
    same_channel_iff shape.channel Channel.control,
    same_kind_iff shape.kind ParcelKind.control,
  )
  front_iff RuntimeMessageKind.cancelled = ground (
    arith,
    same_channel_iff shape.channel Channel.action,
    same_kind_iff shape.kind ParcelKind.data_,
  )
  front_iff RuntimeMessageKind.duplicate_result_unavailable = ground (
    arith,
    same_channel_iff shape.channel Channel.action,
    same_kind_iff shape.kind ParcelKind.data_,
  )
  front_iff RuntimeMessageKind.moved = ground (
    arith,
    same_channel_iff shape.channel Channel.action,
    same_kind_iff shape.kind ParcelKind.data_,
  )

module _ (is_utf8 : List ℕ → Bool) where
  -- What a message may carry: nothing, an object and its location, an error text, or anything.
  abbrev pub Carries : RuntimeMessageKind → Segments → Type 0
  Carries RuntimeMessageKind.cancel payload = payload ≡ []
  Carries RuntimeMessageKind.cancelled payload = payload ≡ []
  Carries RuntimeMessageKind.duplicate_result_unavailable payload = payload ≡ []
  Carries RuntimeMessageKind.moved payload =
      (object : List ℕ) × (location : List ℕ) × (payload ≡ object ∷ location ∷ [])
      × (length object ≡ 32)
      × (length location ≡ 32)
  Carries RuntimeMessageKind.failure payload =
      (text : List ℕ) × (payload ≡ text ∷ [])
      × (length text ≤ max_error_bytes)
      × (is_utf8 text ≡ true)
  Carries RuntimeMessageKind.request payload = Unit
  Carries RuntimeMessageKind.success payload = Unit

  pub record IsShaped (kind : RuntimeMessageKind) (shape : ParcelShape) (request : RequestId)
      (deadline_ms : ℕ) (payload : Segments) : Type 0 where
    pub carried : Carried kind shape
    pub routed : Routed kind shape request
    pub timed : Timed kind deadline_ms
    pub carries : Carries kind payload

  check_payload_iff :
      (kind : RuntimeMessageKind) (payload : Segments)
      → (check_payload is_utf8 kind payload ≡ ok tt) ↔ Carries kind payload
  unfolding check_payload
  check_payload_iff RuntimeMessageKind.cancel [] = (λ e. refl, λ e. refl)
  check_payload_iff RuntimeMessageKind.cancel (a ∷ s) = (λ e. cc, λ e. cc)
  check_payload_iff RuntimeMessageKind.cancelled [] = (λ e. refl, λ e. refl)
  check_payload_iff RuntimeMessageKind.cancelled (a ∷ s) = (λ e. cc, λ e. cc)
  check_payload_iff RuntimeMessageKind.duplicate_result_unavailable [] = (λ e. refl, λ e. refl)
  check_payload_iff RuntimeMessageKind.duplicate_result_unavailable (a ∷ s) = (λ e. cc, λ e. cc)
  check_payload_iff RuntimeMessageKind.moved [] = (λ e. cc, λ (a, b, e, p, q). absurd cc)
  check_payload_iff RuntimeMessageKind.moved (a ∷ []) = (λ e. cc, λ (c, b, e, p, q). absurd cc)
  check_payload_iff RuntimeMessageKind.moved (a ∷ b ∷ []) =
      (λ e. (a, b, refl, ground arith, ground arith), λ (c, d, e, p, q). ground arith)
  check_payload_iff RuntimeMessageKind.moved (a ∷ b ∷ c ∷ s) =
      (λ e. cc, λ (d, f, e, p, q). absurd cc)
  check_payload_iff RuntimeMessageKind.failure [] = (λ e. cc, λ (a, e, p, q). absurd cc)
  check_payload_iff RuntimeMessageKind.failure (a ∷ []) =
      (λ e. (a, refl, ground arith, ground arith), λ (b, e, p, q). ground arith)
  check_payload_iff RuntimeMessageKind.failure (a ∷ b ∷ s) = (λ e. cc, λ (c, e, p, q). absurd cc)
  check_payload_iff RuntimeMessageKind.request payload = (λ e. tt, λ e. refl)
  check_payload_iff RuntimeMessageKind.success payload = (λ e. tt, λ e. refl)

  -- A message's shape is accepted exactly when its parcel's channel and kind are those that carry it,
  -- the request's origin is at the end of the route where its kind wants it, it has a deadline if
  -- and only if it is a call, and its payload is one that its kind carries.
  pub validate_shape_iff :
      (kind : RuntimeMessageKind) (shape : ParcelShape) (request : RequestId) (deadline_ms : ℕ)
      (payload : Segments)
      → (validate_shape is_utf8 kind shape request deadline_ms payload ≡ ok tt)
        ↔ IsShaped kind shape request deadline_ms payload
  unfolding validate_shape
  validate_shape_iff kind shape request deadline_ms payload =
      let front = front_iff shape request deadline_ms kind in
      let rest = check_payload_iff kind payload in
      (
        λ e.
            let passed : passes_front shape request deadline_ms kind ≡ true = ground arith in
            let (carried, routed, timed) = front.0 passed in
            record {
              carried = carried;
              routed = routed;
              timed = timed;
              carries = rest.0 (ground arith);
            },
        λ v.
            let passed : passes_front shape request deadline_ms kind ≡ true =
              front.1 (v.carried, v.routed, v.timed) in
            let fine : check_payload is_utf8 kind payload ≡ ok tt = rest.1 v.carries in
            ground arith,
      )
