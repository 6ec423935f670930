-- ===== src/Transport/Memory/Trying.antt =====
-- crates/hataori-runtime-foundation/src/memory.rs: the whole of `try_send`.
use hataori_rs.Prelude.{
  All, Option, some, get_elem?, ap, length-append, ℕ, ◌+◌, ◌^◌, ◌<◌, ◌≡◌, ◌⊎◌, refl, ◌∙◌, subst,
  true, false, List, [], ◌∷◌, Result, ok, err, panic, eqb, ltb, length, length-set, get_elem?-lt,
  get_elem?-set_self, set, arith, inl, inr, Bool-cases, Result-cases,
}
use hataori_rs.Protocol.Ids.{Channel, LocalityId, ProtocolError}
use hataori_rs.Protocol.Limits.{ProtocolLimits, validate_limits}
use hataori_rs.Protocol.Parcel.{
  Parcel, payload_len, sum_lengths, table_len, encoded_len, validate_parcel,
}
use hataori_rs.Protocol.Reader.{checked_add}
use hataori_rs.Transport.{TransportEvent, TransportError, SendTicket}
use hataori_rs.Transport.Memory.{Delayed, Node, State, MemoryFault}
use hataori_rs.Transport.Memory.Network.{index, node, put_node}
use hataori_rs.Transport.Memory.Driving.{
  deliver, confirm, admit, take_ticket, try_send, pop_fault, from_protocol,
}
use hataori_rs.Transport.Memory.Ledger.{bytes_to, count_to, Inv}
use hataori_rs.Transport.Memory.Releasing.{node-found}
use hataori_rs.Transport.Memory.Sending.{reserve-HasRoom, byte_limit-le}
use hataori_rs.Transport.Memory.Delivering.{
  Safely, Safely-then, Goes, Anything, Short, set-Short, written-Short, written, NodeOk-notice,
  joined, length-joined, enqueue-written, hold_back-Safely,
}

-- What a send tests of its system queue.
abbrev HasSpace : LocalityId → State → Type 0
HasSpace local s =
    (n : Node)
    → get_elem? s.nodes local ≡ some n
    → length n.system < s.limits.max_queued_parcels_per_peer

space-Short : (local : LocalityId) (s : State) → HasSpace local s → Short local s
space-Short local s few n here = omega (arith, few n here)

deliver-Safely :
    (Q : Delayed → Type 0) (local : LocalityId) (p : Parcel) (bytes : ℕ) (fault : MemoryFault)
    (s : State)
    → ((item : Delayed) → item.parcel ≡ p → Q item)
    → All Q s.delayed
    → HasSpace local s
    → payload_len p ≡ ok bytes
    → Inv s
    → local < length s.nodes
    → p.destination < length s.nodes
    → Safely (length s.nodes) (Goes Q s.tick) (λ _. Short local) (deliver local p bytes fault s)
unfolding deliver put_node
deliver-Safely Q local p bytes MemoryFault.pass s fresh q few known v own inside =
    let (n, here) = get_elem?-lt s.nodes p.destination inside in
    elim (reserve-HasRoom p bytes 1 s n inside here) [
      | inl (e, refused) ↦ rw refused (v, refl, (q, omega arith))
      | inr (granted, (room, light)) ↦
          let (e, w) =
            enqueue-written p bytes known false s n v inside here room
              (omega (arith, light, byte_limit-le s.limits p.channel)) in
          rw (granted, e)
            (
              w,
              length-set s.nodes p.destination _,
              (q, omega arith),
              set-Short local s p.destination n _ (space-Short local s few) here refl,
            )
    ]
deliver-Safely Q local p bytes MemoryFault.reorder s fresh q few known v own inside =
    let (n, here) = get_elem?-lt s.nodes p.destination inside in
    elim (reserve-HasRoom p bytes 1 s n inside here) [
      | inl (e, refused) ↦ rw refused (v, refl, (q, omega arith))
      | inr (granted, (room, light)) ↦
          let (e, w) =
            enqueue-written p bytes known true s n v inside here room
              (omega (arith, light, byte_limit-le s.limits p.channel)) in
          rw (granted, e)
            (
              w,
              length-set s.nodes p.destination _,
              (q, omega arith),
              set-Short local s p.destination n _ (space-Short local s few) here refl,
            )
    ]
deliver-Safely Q local p bytes MemoryFault.duplicate s fresh q few known v own inside =
    let d = p.destination in
    let (n, here) = get_elem?-lt s.nodes d inside in
    elim (reserve-HasRoom p bytes 2 s n inside here) [
      | inl (e, refused) ↦ rw refused (v, refl, (q, omega arith))
      | inr (granted, (room, light)) ↦
          let (e, w) =
            enqueue-written p bytes known false s n v inside here (omega (arith, room))
              (omega (arith, light, byte_limit-le s.limits p.channel)) in
          let m : Node = joined p bytes false n in
          let t : State = record s { nodes = set s.nodes d m } in
          let size : length t.nodes ≡ length s.nodes = length-set s.nodes d m in
          let (e', w') =
            enqueue-written p bytes known false t m w (omega (arith, size, inside))
              (get_elem?-set_self s.nodes d n m here)
              (omega (arith, room, length-joined p bytes false n))
              (omega (arith, light, byte_limit-le s.limits p.channel)) in
          rw (granted, e, e')
            (
              w',
              length-set t.nodes d _ ∙ size,
              (q, omega arith),
              set-Short local t d m _ (set-Short local s d n m (space-Short local s few) here refl)
                  (get_elem?-set_self s.nodes d n m here) refl,
            )
    ]
deliver-Safely Q local p bytes MemoryFault.loss s fresh q few known v own inside =
    (v, refl, (q, omega arith), space-Short local s few)
deliver-Safely Q local p bytes MemoryFault.saturate s fresh q few known v own inside =
    (v, refl, (q, omega arith))
deliver-Safely Q local p bytes MemoryFault.disconnect s fresh q few known v own inside =
    let (n, here) = get_elem?-lt s.nodes local own in
    rw (node-found s local n own here) (
      written s local n _ v here (
          NodeOk-notice s.limits (bytes_to s.delayed local) (count_to s.delayed local) n _
            (TransportEvent.peer_failed p.destination (TransportError.disconnected p.destination))
            (v.holds.accounts local n refl here) tt refl refl refl refl
            (omega (arith, few n here))),
      length-set s.nodes local _,
      (q, omega arith),
      written-Short local s n _ here (
          omega (
            arith,
            few n here,
            length-append n.system (
                TransportEvent.peer_failed p.destination (TransportError.disconnected p.destination)
                ∷ []),
          )),
    )
deliver-Safely Q local p bytes (MemoryFault.delay ticks) s fresh q few known v own inside =
    let (n, here) = get_elem?-lt s.nodes p.destination inside in
    elim (reserve-HasRoom p bytes 1 s n inside here) [
      | inl (e, refused) ↦ rw refused (v, refl, (q, omega arith))
      | inr (granted, (room, light)) ↦ rw granted (
          hold_back-Safely p bytes known Q local ticks s n fresh q (space-Short local s few) v
            inside here room (omega (arith, light, byte_limit-le s.limits p.channel)))
    ]

sum_lengths_total : (total : ℕ) (segments : List (List ℕ)) → ¬ (sum_lengths total segments ≡ panic)
unfolding sum_lengths checked_add
sum_lengths_total total [] = λ e. cc
sum_lengths_total total (segment ∷ segments) =
    let rest = sum_lengths_total (total + length segment) segments in λ e. ground (arith, e, rest)

validate_parcel_total : (p : Parcel) (l : ProtocolLimits) → ¬ (validate_parcel p l ≡ panic)
unfolding validate_parcel validate_limits payload_len encoded_len table_len checked_add
validate_parcel_total p l =
    let sized = sum_lengths_total 0 p.segments in λ e. ground (arith, e, sized)

lifted_total :
    {X : Type 0} (r : Result ProtocolError X) → ¬ (r ≡ panic) → ¬ (from_protocol r ≡ panic)
lifted_total (ok x) h = λ e. cc
lifted_total (err e) h = λ e. cc
lifted_total panic h = λ e. h refl

one_node : (o : Option Node) (n m : Node) → o ≡ some n → o ≡ some m → n ≡ m
one_node o n m e e' = cc

-- The tests of `try_send` change nothing. If they pass, the destination is there, the size is known and
-- the parcel is from the sender, whose system queue has space.
admit-cases :
    (local : LocalityId) (p : Parcel) (s : State)
    → local < length s.nodes
    → ((e : TransportError) × (admit local p s ≡ (err e, s)))
      ⊎ ((bytes : ℕ) × (admit local p s ≡ (ok bytes, s))
          × (payload_len p ≡ ok bytes)
          × (p.destination < length s.nodes)
          × (p.source ≡ local)
          × HasSpace local s)
unfolding admit node index payload_len
admit-cases local p s own =
    let (n, here) = get_elem?-lt s.nodes local own in
    let small : ltb local (length s.nodes) ≡ true = ground arith in
    elim (Bool-cases n.active) [
      | inr off ↦ inl (TransportError.shutdown, rw (small, here, off) refl)
      | inl on ↦ elim (Bool-cases (eqb p.run_id s.run_id)) [
        | inr other ↦
            inl
              (TransportError.protocol ProtocolError.run_mismatch, rw (small, here, on, other) refl)
        | inl run ↦ elim (Bool-cases (eqb p.source local)) [
          | inr other ↦ inl (
            TransportError.peer "parcel source does not match handle",
            rw (small, here, on, run, other) refl,
          )
          | inl source ↦ elim (Result-cases (validate_parcel p s.limits)) [
            | inr (inl (e, bad)) ↦
                inl (TransportError.protocol e, rw (small, here, on, run, source, bad) refl)
            | inr (inr bad) ↦ absurd (validate_parcel_total p s.limits bad)
            | inl (u, valid) ↦ elim (Bool-cases (ltb p.destination (length s.nodes))) [
              | inr out ↦ inl (
                TransportError.invalid_destination p.destination,
                rw (small, here, on, run, source, valid, out) refl,
              )
              | inl inside ↦
                  let (m, there) = get_elem?-lt s.nodes p.destination (ground arith) in
                  elim (Bool-cases (ltb (length n.system) s.limits.max_queued_parcels_per_peer)) [
                    | inr full ↦ inl (
                      TransportError.queue_full Channel.control
                          s.limits.max_queued_parcels_per_peer,
                      rw (small, here, on, run, source, valid, inside, there, full) refl,
                    )
                    | inl room ↦ elim (Result-cases (sum_lengths 0 p.segments)) [
                      | inr (inl (e, bad)) ↦ inl (
                        TransportError.protocol e,
                        rw (small, here, on, run, source, valid, inside, there, room, bad) refl,
                      )
                      | inr (inr bad) ↦ absurd (sum_lengths_total 0 p.segments bad)
                      | inl (bytes, known) ↦ inr (
                        bytes,
                        rw (small, here, on, run, source, valid, inside, there, room, known) refl,
                        known,
                        ground arith,
                        ground arith,
                        λ o found.
                            (let same : n ≡ o = one_node (get_elem? s.nodes local) n o here found in
                              ground (arith, ap (λ x. length x.system) same)),
                      )
                    ]
                  ]
            ]
          ]
        ]
      ]
    ]

confirm-Safely :
    (Q : Delayed → Type 0) (local : LocalityId) (bytes : ℕ) (ticket : SendTicket) (tick : ℕ)
    (s : State)
    → Goes Q tick s
    → Short local s
    → Inv s
    → local < length s.nodes
    → Safely (length s.nodes) (Goes Q tick) Anything (confirm local bytes ticket s)
unfolding confirm put_node
confirm-Safely Q local bytes ticket tick s goes short v own =
    let (n, here) = get_elem?-lt s.nodes local own in
    rw (node-found s local n own here) (
      written s local n _ v here (
          NodeOk-notice s.limits (bytes_to s.delayed local) (count_to s.delayed local) n _
            (TransportEvent.local_send_complete ticket) (v.holds.accounts local n refl here) tt refl
            refl refl refl (short n here)),
      length-set s.nodes local _,
      goes,
      tt,
    )

renewed :
    (s : State) (ticket : ℕ) (faults : List MemoryFault)
    → Inv s
    → Inv (record s { next_ticket = ticket; faults = faults })
renewed s ticket faults v = record {
  holds = record { accounts = v.holds.accounts };
  placed = v.placed;
  queues_fit = v.queues_fit;
  bytes_fit = v.bytes_fit;
}

-- A send keeps the accounts, and any property of the parcels that are held back that its own parcels
-- have.
pub try_send-Safely :
    (Q : Delayed → Type 0) (local : LocalityId) (p : Parcel) (s : State)
    → ((item : Delayed) → item.parcel.source ≡ local → Q item)
    → All Q s.delayed
    → Inv s
    → local < length s.nodes
    → Safely (length s.nodes) (Goes Q s.tick) Anything (try_send local p s)
unfolding try_send take_ticket
try_send-Safely Q local p s fresh q v own = elim (admit-cases local p s own) [
  | inl (e, refused) ↦ rw refused (v, refl, (q, omega arith))
  | inr (bytes, admitted, known, inside, source, few) ↦
      elim (Bool-cases (ltb (s.next_ticket + 1) (2 ^ 64))) [
        | inr none_ ↦ rw (admitted, none_) (v, refl, (q, omega arith))
        | inl some_ ↦
            let t : State = record s {
              next_ticket = s.next_ticket + 1;
              faults = (pop_fault s.faults).1;
            } in
            rw (admitted, some_)
              (Safely-then (length s.nodes) (Goes Q s.tick) (λ _. Short local) Anything _
                (deliver local p bytes (pop_fault s.faults).0 t)
                (deliver-Safely Q local p bytes (pop_fault s.faults).0 t
                  (λ item same. fresh item (ap (λ x. x.source) same ∙ source)) q few known
                  (renewed s _ _ v) own inside)
                λ _ u w size goes short.
                  Safely-then (length s.nodes) (Goes Q s.tick) Anything Anything _
                    (confirm local bytes s.next_ticket u)
                    (subst
                      (λ m. Safely m (Goes Q s.tick) Anything (confirm local bytes s.next_ticket u))
                      size
                      (confirm-Safely Q local bytes s.next_ticket s.tick u goes short w
                        (omega (arith, size, own))))
                    λ _ r w' size' goes' _. (w', size', goes', tt))
      ]
]
