-- ===== src/Protocol/Frames.antt =====
-- crates/hataori-runtime-foundation/src/protocol.rs: lengths and tables of a parcel's segments.
use hataori_rs.Prelude.{
  ℕ, ◌+◌, ◌*◌, ◌^◌, ◌<◌, ◌≤◌, ◌≡◌, refl, false, List, [], ◌∷◌, ◌++◌, map, ok, arith, length,
  length-append, subst, append_assoc, Option, none, some, ltb,
}
use hataori_rs.Prelude.Bytes.{to_le, length-to_le}
use hataori_rs.Protocol.Ids.{TraceId, nonzero_id_lem}
use hataori_rs.Protocol.Reader.{Reader, checked_add, Ahead, take_bytes-Ahead, take_uint-Ahead}
use hataori_rs.Protocol.Parcel.{
  sum_lengths, length_table, contents, read_lengths, read_segments, trace_bytes, trace_from,
  read_trace,
}

-- The bytes of all segments together.
abbrev pub total_len : List (List ℕ) → ℕ
total_len [] = 0
total_len (segment ∷ segments) = length segment + total_len segments

pub sum_lengths-total_len :
    (total : ℕ) (segments : List (List ℕ)) {n : ℕ}
    → total < 2 ^ 64
    → sum_lengths total segments ≡ ok n
    → (n ≡ total + total_len segments) × (n < 2 ^ 64)
unfolding sum_lengths
sum_lengths-total_len total [] h e = ground arith
sum_lengths-total_len total (segment ∷ segments) {n} h e =
    ground (arith, sum_lengths-total_len (total + length segment) segments {n = n})

pub length-length_table :
    (segments : List (List ℕ)) → length (length_table segments) ≡ 8 * length segments
unfolding length_table
length-length_table [] = refl
length-length_table (segment ∷ segments) = omega (
  arith,
  length-append (to_le 8 (length segment)) (length_table segments),
  length-to_le 8 (length segment),
  length-length_table segments,
)

pub length-contents : (segments : List (List ℕ)) → length (contents segments) ≡ total_len segments
unfolding contents
length-contents [] = refl
length-contents (segment ∷ segments) =
    omega (arith, length-append segment (contents segments), length-contents segments)

pub read_lengths-Ahead :
    (max_payload : ℕ) (segments : List (List ℕ)) (total : ℕ) (rest : List ℕ) (r : Reader)
    → max_payload < 2 ^ 64
    → total + total_len segments ≤ max_payload
    → Ahead r (length_table segments ++ rest)
    → (r' : Reader) × (read_lengths max_payload (length segments) total r
        ≡ (ok (map length segments, total + total_len segments), r'))
      × Ahead r' rest
unfolding read_lengths length_table
read_lengths-Ahead max_payload [] total rest r fits h a = (r, ground arith, a)
read_lengths-Ahead max_payload (segment ∷ segments) total rest r fits h a =
    let a' =
      subst (Ahead r) (append_assoc (to_le 8 (length segment)) (length_table segments) rest) a in
    let (r1, e1, a1) = take_uint-Ahead r 8 (length segment) _ a' (omega arith) in
    let (r2, e2, a2) =
      read_lengths-Ahead max_payload segments (total + length segment) rest r1 fits (omega arith)
        a1 in
    let added : checked_add total (length segment) ≡ ok (total + length segment) =
      unfold checked_add in ground arith in
    let small : ltb max_payload (total + length segment) ≡ false = ground arith in
    (r2, rw (e1, added, small, e2) (ground arith), a2)

pub read_segments-Ahead :
    (segments : List (List ℕ)) (rest : List ℕ) (r : Reader)
    → Ahead r (contents segments ++ rest)
    → (r' : Reader) × (read_segments (map length segments) r ≡ (ok segments, r')) × Ahead r' rest
unfolding read_segments contents
read_segments-Ahead [] rest r a = (r, refl, a)
read_segments-Ahead (segment ∷ segments) rest r a =
    let a' = subst (Ahead r) (append_assoc segment (contents segments) rest) a in
    let (r1, e1, a1) = take_bytes-Ahead r segment _ (length segment) a' refl in
    let (r2, e2, a2) = read_segments-Ahead segments rest r1 a1 in (r2, rw (e1, e2) refl, a2)

-- An absent trace id, or one that is not zero and fits.
abbrev pub IsTrace : Option TraceId → Type 0
IsTrace none = Unit
IsTrace (some id) = (0 < id) × (id < 256 ^ 16)

pub read_trace-Ahead :
    (trace : Option TraceId) (rest : List ℕ) (r : Reader)
    → IsTrace trace
    → Ahead r (trace_bytes trace ++ rest)
    → (r' : Reader) × (read_trace r ≡ (ok trace, r')) × Ahead r' rest
unfolding read_trace trace_bytes trace_from
read_trace-Ahead none rest r h a =
    let a' = subst (Ahead r) (append_assoc (to_le 1 0) (to_le 16 0) rest) a in
    let (r1, e1, a1) = take_uint-Ahead r 1 0 _ a' (omega arith) in
    let (r2, e2, a2) = take_uint-Ahead r1 16 0 rest a1 (omega arith) in (r2, rw (e1, e2) refl, a2)
read_trace-Ahead (some id) rest r h a =
    let a' = subst (Ahead r) (append_assoc (to_le 1 1) (to_le 16 id) rest) a in
    let (r1, e1, a1) = take_uint-Ahead r 1 1 _ a' (omega arith) in
    let (r2, e2, a2) = take_uint-Ahead r1 16 id rest a1 h.1 in
    (r2, rw (e1, e2, nonzero_id_lem "TraceId" id h.0) refl, a2)
