-- ===== src/Protocol/Limits.antt =====
-- crates/hataori-runtime-foundation/src/protocol.rs: `ProtocolLimits` and their negotiation.
use hataori_rs.Prelude.{
  ℕ, ◌*◌, ◌≤◌, ◌<◌, min, ◌≡◌, arith, ◌∙◌, ap, ◌||◌, Result, ok, err, ltb, leb, eqb, if◌then◌else◌,
}
use hataori_rs.Prelude.Fallible.{◌>>=◌}
use hataori_rs.Protocol.Ids.{ProtocolError}

abbrev pub parcel_fixed_bytes : ℕ
parcel_fixed_bytes = 87

pub record ProtocolLimits : Type 0 where
  pub max_frame_bytes : ℕ
  pub max_payload_bytes : ℕ
  pub max_segments : ℕ
  pub max_queued_parcels_per_peer : ℕ
  pub max_inflight_bytes_per_peer : ℕ
  pub control_reserved_bytes_per_peer : ℕ

unfoldable pub validate_limits : ProtocolLimits → Result ProtocolError ProtocolLimits
validate_limits l =
    if ltb l.max_frame_bytes parcel_fixed_bytes
      || (eqb l.max_payload_bytes 0
          || (eqb l.max_segments 0
              || (eqb l.max_queued_parcels_per_peer 0
                  || (eqb l.max_inflight_bytes_per_peer 0
                      || (eqb l.control_reserved_bytes_per_peer 0
                          || leb l.max_inflight_bytes_per_peer
                              l.control_reserved_bytes_per_peer)))))
    then err ProtocolError.invalid_limits
    else ok l

-- The smaller limit of each.
unfoldable pub smaller : ProtocolLimits → ProtocolLimits → ProtocolLimits
smaller a b = record {
  max_frame_bytes = min a.max_frame_bytes b.max_frame_bytes;
  max_payload_bytes = min a.max_payload_bytes b.max_payload_bytes;
  max_segments = min a.max_segments b.max_segments;
  max_queued_parcels_per_peer = min a.max_queued_parcels_per_peer b.max_queued_parcels_per_peer;
  max_inflight_bytes_per_peer = min a.max_inflight_bytes_per_peer b.max_inflight_bytes_per_peer;
  control_reserved_bytes_per_peer =
      min a.control_reserved_bytes_per_peer b.control_reserved_bytes_per_peer;
}

unfoldable pub negotiate : ProtocolLimits → ProtocolLimits → Result ProtocolError ProtocolLimits
unfolding smaller
negotiate own peer = do
  _ ← validate_limits own
  _ ← validate_limits peer
  validate_limits (smaller own peer)

abbrev pub default_limits : ProtocolLimits
default_limits = record {
  max_frame_bytes = 16 * 1024 * 1024;
  max_payload_bytes = 8 * 1024 * 1024;
  max_segments = 1024;
  max_queued_parcels_per_peer = 256;
  max_inflight_bytes_per_peer = 16 * 1024 * 1024;
  control_reserved_bytes_per_peer = 64 * 1024;
}

-- What `validate` asks for.
pub record IsValid (l : ProtocolLimits) : Type 0 where
  pub frame : parcel_fixed_bytes ≤ l.max_frame_bytes
  pub payload : 0 < l.max_payload_bytes
  pub segments : 0 < l.max_segments
  pub queued : 0 < l.max_queued_parcels_per_peer
  pub reserved : 0 < l.control_reserved_bytes_per_peer
  pub room : l.control_reserved_bytes_per_peer < l.max_inflight_bytes_per_peer

pub validate_limits-ok : (l : ProtocolLimits) → IsValid l → validate_limits l ≡ ok l
unfolding validate_limits
validate_limits-ok l v = ground arith

pub validate_limits-IsValid : (l m : ProtocolLimits) → validate_limits l ≡ ok m → IsValid l
unfolding validate_limits
validate_limits-IsValid l m e = ground arith

smaller-IsValid : (a b : ProtocolLimits) → IsValid a → IsValid b → IsValid (smaller a b)
unfolding smaller
smaller-IsValid a b v w = omega arith

-- Each limit of `a` is at most that of `b`.
pub record AtMost (a b : ProtocolLimits) : Type 0 where
  pub frame : a.max_frame_bytes ≤ b.max_frame_bytes
  pub payload : a.max_payload_bytes ≤ b.max_payload_bytes
  pub segments : a.max_segments ≤ b.max_segments
  pub queued : a.max_queued_parcels_per_peer ≤ b.max_queued_parcels_per_peer
  pub inflight : a.max_inflight_bytes_per_peer ≤ b.max_inflight_bytes_per_peer
  pub reserved : a.control_reserved_bytes_per_peer ≤ b.control_reserved_bytes_per_peer

min_comm : (m n : ℕ) → min m n ≡ min n m
min_comm m n = omega arith

pub smaller_comm : (a b : ProtocolLimits) → smaller a b ≡ smaller b a
unfolding smaller
smaller_comm a b = λ i. record {
  max_frame_bytes = min_comm a.max_frame_bytes b.max_frame_bytes i;
  max_payload_bytes = min_comm a.max_payload_bytes b.max_payload_bytes i;
  max_segments = min_comm a.max_segments b.max_segments i;
  max_queued_parcels_per_peer =
      min_comm a.max_queued_parcels_per_peer b.max_queued_parcels_per_peer i;
  max_inflight_bytes_per_peer =
      min_comm a.max_inflight_bytes_per_peer b.max_inflight_bytes_per_peer i;
  control_reserved_bytes_per_peer =
      min_comm a.control_reserved_bytes_per_peer b.control_reserved_bytes_per_peer i;
}

pub negotiate-smaller :
    (own peer : ProtocolLimits)
    → IsValid own
    → IsValid peer
    → negotiate own peer ≡ ok (smaller own peer)
unfolding negotiate
negotiate-smaller own peer v w =
    rw (validate_limits-ok own v, validate_limits-ok peer w)
      (validate_limits-ok _ (unfold smaller in smaller-IsValid own peer v w))

smaller_below : (a b : ProtocolLimits) → AtMost (smaller a b) a × AtMost (smaller a b) b
unfolding smaller
smaller_below a b = (omega arith, omega arith)

smaller_largest : (a b m : ProtocolLimits) → AtMost m a → AtMost m b → AtMost m (smaller a b)
unfolding smaller
smaller_largest a b m p q = omega arith

-- Two peers with valid limits always agree, on the same limits whichever side asks. These are
-- valid, exceed neither side's, and are at least any limits that exceed neither side's.
pub negotiate_agree :
    (own peer other : ProtocolLimits)
    → IsValid own
    → IsValid peer
    → AtMost other own
    → AtMost other peer
    → (agreed : ProtocolLimits) × (negotiate own peer ≡ ok agreed)
      × (negotiate peer own ≡ ok agreed)
      × IsValid agreed
      × AtMost agreed own
      × AtMost agreed peer
      × AtMost other agreed
negotiate_agree own peer other v w p q =
    let (below_own, below_peer) = smaller_below own peer in
    (
      smaller own peer,
      negotiate-smaller own peer v w,
      negotiate-smaller peer own w v ∙ ap ok (smaller_comm peer own),
      smaller-IsValid own peer v w,
      below_own,
      below_peer,
      smaller_largest own peer other p q,
    )
