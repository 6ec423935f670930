-- ===== src/Protocol/HelloTrip.antt =====
-- crates/hataori-runtime-foundation/src/protocol.rs: a hello is read back as it was written.
use hataori_rs.Prelude.{ℕ, ◌^◌, ◌<◌, ◌≡◌, refl, List, [], ◌++◌, ok, arith, length, length-append}
use hataori_rs.Prelude.Bytes.{to_le, length-to_le, same_bytes_iff}
use hataori_rs.Protocol.Ids.{RuntimeVersion, nonzero_id_lem}
use hataori_rs.Protocol.Limits.{ProtocolLimits, validate_limits-ok, IsValid}
use hataori_rs.Protocol.Reader.{
  Reader, new_reader, to_u32, Ahead, new_reader-Ahead, take_bytes-Ahead, take_uint-Ahead,
  finish-Ahead,
}
use hataori_rs.Protocol.Hello.{
  Hello, hello_magic, protocol_version, hello_bytes, hello_body, encode_hello, decode_hello,
  read_magic, read_version, read_limits, read_hello,
}

-- The ranges that the Rust types give.
pub record IsHello (h : Hello) : Type 0 where
  pub run : (0 < h.run_id) × (h.run_id < 256 ^ 16)
  pub major : h.runtime_version.major < 256 ^ 2
  pub minor : h.runtime_version.minor < 256 ^ 2
  pub patch : h.runtime_version.patch < 256 ^ 2
  pub actions : length h.action_registry_hash ≡ 32
  pub objects : length h.object_registry_hash ≡ 32
  pub capabilities : h.capabilities < 256 ^ 8
  pub frame : h.limits.max_frame_bytes < 256 ^ 8
  pub payload : h.limits.max_payload_bytes < 256 ^ 8
  pub inflight : h.limits.max_inflight_bytes_per_peer < 256 ^ 8
  pub reserved : h.limits.control_reserved_bytes_per_peer < 256 ^ 8

pub read_magic-Ahead :
    (r : Reader) (magic rest : List ℕ)
    → length magic ≡ 4
    → Ahead r (magic ++ (to_le 4 protocol_version ++ rest))
    → (r' : Reader) × (read_magic magic r ≡ (ok tt, r')) × Ahead r' rest
unfolding read_magic
read_magic-Ahead r magic rest size a =
    let (r1, e1, a1) = take_bytes-Ahead r magic (to_le 4 protocol_version ++ rest) 4 a size in
    let (r2, e2, a2) = take_uint-Ahead r1 4 protocol_version rest a1 (omega arith) in
    (r2, rw (e1, (same_bytes_iff magic magic).1 refl, e2) refl, a2)

read_version-Ahead :
    (r : Reader) (v : RuntimeVersion) (rest : List ℕ)
    → (v.major < 256 ^ 2) × (v.minor < 256 ^ 2) × (v.patch < 256 ^ 2)
    → Ahead r (to_le 2 v.major ++ (to_le 2 v.minor ++ (to_le 2 v.patch ++ rest)))
    → (r' : Reader) × (read_version r ≡ (ok v, r')) × Ahead r' rest
unfolding read_version
read_version-Ahead r v rest (p, q, s) a =
    let (r1, e1, a1) = take_uint-Ahead r 2 v.major _ a p in
    let (r2, e2, a2) = take_uint-Ahead r1 2 v.minor _ a1 q in
    let (r3, e3, a3) = take_uint-Ahead r2 2 v.patch _ a2 s in (r3, rw (e1, e2, e3) refl, a3)

read_limits-Ahead :
    (r : Reader) (l : ProtocolLimits) (rest : List ℕ)
    → IsValid l
    → (l.max_frame_bytes < 256 ^ 8) × (l.max_payload_bytes < 256 ^ 8) × (l.max_segments < 256 ^ 4)
    → (l.max_queued_parcels_per_peer < 256 ^ 4)
      × (l.max_inflight_bytes_per_peer < 256 ^ 8)
      × (l.control_reserved_bytes_per_peer < 256 ^ 8)
    → Ahead r (
        to_le 8 l.max_frame_bytes
        ++ (to_le 8 l.max_payload_bytes
            ++ (to_le 4 l.max_segments
                ++ (to_le 4 l.max_queued_parcels_per_peer
                    ++ (to_le 8 l.max_inflight_bytes_per_peer
                        ++ (to_le 8 l.control_reserved_bytes_per_peer ++ rest))))))
    → (r' : Reader) × (read_limits r ≡ (ok l, r')) × Ahead r' rest
unfolding read_limits
read_limits-Ahead r l rest v (p1, p2, p3) (p4, p5, p6) a =
    let (r1, e1, a1) = take_uint-Ahead r 8 l.max_frame_bytes _ a p1 in
    let (r2, e2, a2) = take_uint-Ahead r1 8 l.max_payload_bytes _ a1 p2 in
    let (r3, e3, a3) = take_uint-Ahead r2 4 l.max_segments _ a2 p3 in
    let (r4, e4, a4) = take_uint-Ahead r3 4 l.max_queued_parcels_per_peer _ a3 p4 in
    let (r5, e5, a5) = take_uint-Ahead r4 8 l.max_inflight_bytes_per_peer _ a4 p5 in
    let (r6, e6, a6) = take_uint-Ahead r5 8 l.control_reserved_bytes_per_peer _ a5 p6 in
    (r6, rw (e1, e2, e3, e4, e5, e6, validate_limits-ok l v) refl, a6)

read_hello-Ahead :
    (r : Reader) (h : Hello)
    → IsHello h
    → IsValid h.limits
    → h.limits.max_segments < 256 ^ 4
    → h.limits.max_queued_parcels_per_peer < 256 ^ 4
    → Ahead r (hello_body h h.limits.max_segments h.limits.max_queued_parcels_per_peer)
    → (read_hello r).0 ≡ ok h
unfolding read_hello hello_body
read_hello-Ahead r h w v small_segments small_queued a =
    let (r1, e1, a1) = read_magic-Ahead r hello_magic _ refl a in
    let (r2, e2, a2) = take_uint-Ahead r1 16 h.run_id _ a1 w.run.1 in
    let (r3, e3, a3) = read_version-Ahead r2 h.runtime_version _ (w.major, w.minor, w.patch) a2 in
    let (r4, e4, a4) = take_bytes-Ahead r3 h.action_registry_hash _ 32 a3 w.actions in
    let (r5, e5, a5) = take_bytes-Ahead r4 h.object_registry_hash _ 32 a4 w.objects in
    let (r6, e6, a6) = take_uint-Ahead r5 8 h.capabilities _ a5 w.capabilities in
    let (r7, e7, a7) =
      read_limits-Ahead r6 h.limits [] v (w.frame, w.payload, small_segments)
        (small_queued, w.inflight, w.reserved) a6 in
    rw (e1, e2, nonzero_id_lem "RunId" h.run_id w.run.0, e3, e4, e5, e6, e7, finish-Ahead r7 a7)
      refl

length-hello_body :
    (h : Hello) (segments queued : ℕ)
    → IsHello h
    → length (hello_body h segments queued) ≡ hello_bytes
unfolding hello_body
length-hello_body h segments queued w =
    simp (length-append, length-to_le, w.actions, w.objects) refl

encoded :
    (h : Hello)
    → IsValid h.limits
    → h.limits.max_segments < 2 ^ 32
    → h.limits.max_queued_parcels_per_peer < 2 ^ 32
    → encode_hello h ≡ ok (hello_body h h.limits.max_segments h.limits.max_queued_parcels_per_peer)
unfolding encode_hello to_u32
encoded h v segments queued = rw (validate_limits-ok h.limits v) (ground arith)

-- A hello whose fields fit their Rust types, with valid limits of which the two that are narrowed
-- are below 2 ^ 32, is encoded to 142 bytes that `decode_hello` reads back as it was.
pub decode_hello-encode_hello :
    (h : Hello)
    → IsHello h
    → IsValid h.limits
    → h.limits.max_segments < 2 ^ 32
    → h.limits.max_queued_parcels_per_peer < 2 ^ 32
    → (bytes : List ℕ) × (encode_hello h ≡ ok bytes)
      × (length bytes ≡ 142)
      × (decode_hello bytes ≡ ok h)
unfolding decode_hello
decode_hello-encode_hello h w v segments queued =
    let bytes = hello_body h h.limits.max_segments h.limits.max_queued_parcels_per_peer in
    let size : length bytes ≡ 142 = length-hello_body h _ _ w in
    (
      bytes,
      encoded h v segments queued,
      size,
      rw size (
          read_hello-Ahead (new_reader bytes) h w v segments queued
            (new_reader-Ahead bytes (omega (arith, size)))),
    )
