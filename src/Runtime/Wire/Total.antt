-- ===== src/Runtime/Wire/Total.antt =====
-- crates/hataori-runtime/src/wire.rs: what `decode` does with any parcel.
use hataori_rs.Prelude.{
  ℕ, zero, suc, ◌-◌, ◌≤◌, ◌<◌, ◌≡◌, refl, List, [], ◌∷◌, Bool, true, Result, ok, err, panic, arith,
  length, eqb, leb, take, drop, inl, inr, Result-cases, Bool-cases, subst, sym,
}
use hataori_rs.Prelude.Bytes.{from_le, same_bytes}
use hataori_rs.Protocol.Ids.{RequestId}
use hataori_rs.Protocol.Parcel.{Parcel}
use hataori_rs.Runtime.Message.{RuntimeMessageKind, RuntimeMessage, Segments}
use hataori_rs.Runtime.Wire.{
  ParcelShape, message_from, slice, byte, decode_header, decode, validate_shape, check_payload,
  header_bytes, header_magic, header_version,
}
use hataori_rs.Runtime.Wire.Shape.{IsShaped, validate_shape_iff}

abbrev pub Holds : {E A : Type 0} → (A → Type 0) → Result E A → Type 0
Holds P (ok value) = P value
Holds P (err error) = Unit
Holds P panic = ⊥

-- No panic, and a value with the property if one is returned.
pub record Post {E A : Type 0} (P : A → Type 0) (r : Result E A) : Type 0 where
  pub holds : Holds P r

refused : {E A : Type 0} {P : A → Type 0} {error : E} → Post P (err error)
refused = record { holds = tt }

slice_ok :
    (from to : ℕ) (bytes : List ℕ)
    → to ≤ length bytes
    → (part : List ℕ) × (slice from to bytes ≡ ok part)
unfolding slice
slice_ok from to bytes h =
    let fits : leb to (length bytes) ≡ true = ground arith in
    (take (to - from) (drop from bytes), rw fits refl)

byte_ok :
    (position : ℕ) (bytes : List ℕ)
    → position < length bytes
    → (value : ℕ) × (byte position bytes ≡ ok value)
unfolding byte
byte_ok position [] h = absurd (omega arith)
byte_ok zero (b ∷ bytes) h = (b, refl)
byte_ok (suc position) (b ∷ bytes) h = byte_ok position bytes (omega arith)

message_from-Post : (value : ℕ) → Post (λ _. Unit) (message_from value)
unfolding message_from
message_from-Post value = record { holds = ground arith }

module _ (is_utf8 : List ℕ → Bool) where
  check_payload-Post :
      (kind : RuntimeMessageKind) (payload : Segments)
      → Post (λ _. Unit) (check_payload is_utf8 kind payload)
  unfolding check_payload
  check_payload-Post RuntimeMessageKind.request payload = record { holds = tt }
  check_payload-Post RuntimeMessageKind.success payload = record { holds = tt }
  check_payload-Post RuntimeMessageKind.cancel payload = record { holds = ground arith }
  check_payload-Post RuntimeMessageKind.cancelled payload = record { holds = ground arith }
  check_payload-Post RuntimeMessageKind.duplicate_result_unavailable payload = record {
    holds = ground arith;
  }
  check_payload-Post RuntimeMessageKind.moved payload = record { holds = ground arith }
  check_payload-Post RuntimeMessageKind.failure payload = record { holds = ground arith }

  module _ (kind : RuntimeMessageKind) (shape : ParcelShape) (request : RequestId) (deadline_ms : ℕ)
      (payload : Segments) where
    shape_returns : Post (λ _. Unit) (validate_shape is_utf8 kind shape request deadline_ms payload)
    unfolding validate_shape
    shape_returns = record { holds = ground (arith, (check_payload-Post kind payload).holds) }

    validate_shape-Post :
        Post
          (λ _. IsShaped is_utf8 kind shape request deadline_ms payload)
          (validate_shape is_utf8 kind shape request deadline_ms payload)
    validate_shape-Post =
        elim (Result-cases (validate_shape is_utf8 kind shape request deadline_ms payload)) [
          | inl (_, e) ↦ subst (Post _) (sym e) (record {
            holds = (validate_shape_iff is_utf8 kind shape request deadline_ms payload).0 e;
          })
          | inr (inl (x, e)) ↦ subst (Post _) (sym e) (record { holds = tt })
          | inr (inr e) ↦ absurd (subst (Holds (λ _. Unit)) e shape_returns.holds)
        ]

  module _ (shape : ParcelShape) (bytes : List ℕ) (payload : Segments) where
    decode_sized-Post :
        length bytes ≡ header_bytes
        → Post
            (λ m. IsShaped is_utf8 m.kind shape m.request m.deadline_ms m.payload)
            (decode_header is_utf8 shape bytes payload)
    unfolding decode_header
    decode_sized-Post size =
        let (prefix, e1) = slice_ok 0 4 bytes (omega arith) in
        let (found_version, e2) = byte_ok 4 bytes (omega arith) in
        let (kind_byte, e3) = byte_ok 5 bytes (omega arith) in
        let (padding, e4) = slice_ok 6 8 bytes (omega arith) in
        let (origin, e5) = slice_ok 8 16 bytes (omega arith) in
        let (sequence, e6) = slice_ok 16 24 bytes (omega arith) in
        let (action, e7) = slice_ok 24 40 bytes (omega arith) in
        let (domain, e8) = slice_ok 40 44 bytes (omega arith) in
        let (deadline, e9) = slice_ok 44 52 bytes (omega arith) in
        let request : RequestId = record { origin = from_le origin; sequence = from_le sequence } in
        rw (size, e1)
          (elim (Bool-cases (same_bytes prefix header_magic)) [
            | inr fails ↦ rw fails refused
            | inl passed ↦
                rw (passed, e2)
                  (elim (Bool-cases (eqb found_version header_version)) [
                    | inr fails ↦ rw fails refused
                    | inl passed ↦
                        rw (passed, e3)
                          (elim (Result-cases (message_from kind_byte)) [
                            | inr (inl (x, bad)) ↦ rw bad refused
                            | inr (inr bad) ↦
                                absurd (
                                  subst (Holds (λ _. Unit)) bad (message_from-Post kind_byte).holds)
                            | inl (kind, known) ↦
                                rw (known, e4)
                                  (elim (Bool-cases (same_bytes padding (0 ∷ 0 ∷ []))) [
                                    | inr fails ↦ rw fails refused
                                    | inl passed ↦
                                        rw (passed, e5, e6)
                                          (elim (Bool-cases (eqb (from_le sequence) 0)) [
                                            | inl zero_ ↦ rw zero_ refused
                                            | inr nonzero ↦
                                                rw (nonzero, e7)
                                                  (elim (Bool-cases (eqb (from_le action) 0)) [
                                                    | inl zero_ ↦ rw zero_ refused
                                                    | inr nonzero ↦
                                                        rw (nonzero, e8, e9)
                                                          (let shaped =
                                                            validate_shape-Post kind shape request
                                                            (from_le deadline) payload in
                                                            elim (Result-cases (
                                                            validate_shape is_utf8 kind shape
                                                            request (from_le deadline) payload)) [
                                                              | inl (_, e) ↦ rw e (record {
                                                              holds =
                                                              subst (Holds _) e shaped.holds;
                                                              })
                                                              | inr (inl (x, e)) ↦ rw e refused
                                                              | inr (inr e) ↦
                                                                absurd
                                                                (subst (Holds _) e shaped.holds)
                                                            ])
                                                  ])
                                          ])
                                  ])
                          ])
                  ])
          ])

    decode_header-Post :
        Post
          (λ m. IsShaped is_utf8 m.kind shape m.request m.deadline_ms m.payload)
          (decode_header is_utf8 shape bytes payload)
    unfolding decode_header
    decode_header-Post = elim (Bool-cases (eqb (length bytes) header_bytes)) [
      | inl size ↦ decode_sized-Post (ground arith)
      | inr other ↦ rw other refused
    ]

-- The message has the shape that its kind asks of the parcel.
abbrev pub Received : (List ℕ → Bool) → Parcel → RuntimeMessage → Type 0
Received is_utf8 p m =
    IsShaped is_utf8 m.kind
      (record {
        channel = p.channel;
        kind = p.kind;
        source = p.source;
        destination = p.destination;
      })
      m.request m.deadline_ms m.payload

decode_at :
    (is_utf8 : List ℕ → Bool) (p : Parcel) (segments : Segments)
    → p.segments ≡ segments
    → Post (Received is_utf8 p) (decode is_utf8 p)
unfolding decode
decode_at is_utf8 p [] e = rw e refused
decode_at is_utf8 p (bytes ∷ payload) e = rw e (decode_header-Post is_utf8 _ bytes payload)

-- Whatever parcel comes in and whatever the test for UTF-8, `decode` does not panic; and a message
-- that it returns came in a parcel of the channel, kind and route that its kind asks for, has a
-- deadline if and only if it is a call, and has a payload that its kind carries.
pub decode-Received :
    (is_utf8 : List ℕ → Bool) (p : Parcel) → Post (Received is_utf8 p) (decode is_utf8 p)
decode-Received is_utf8 p = decode_at is_utf8 p p.segments refl
