-- ===== src/Transport/Memory/Sending.antt =====
-- crates/hataori-runtime-foundation/src/memory.rs: what `try_send` does to the accounts.
use hataori_rs.Prelude.{
  All-snoc, ℕ, ◌+◌, ◌-◌, ◌*◌, ◌^◌, ◌≤◌, ◌<◌, ◌≡◌, ◌⊎◌, refl, sym, ◌∙◌, ap, subst, Bool, true, false,
  some, List, [], ◌∷◌, ok, err, ltb, length, length-append, get_elem?, All, sum_of, sum_of-append,
  arith, inl, inr, Bool-cases,
}
use hataori_rs.Protocol.Ids.{Channel}
use hataori_rs.Protocol.Limits.{ProtocolLimits}
use hataori_rs.Protocol.Parcel.{Parcel, payload_len}
use hataori_rs.Protocol.Frames.{total_len}
use hataori_rs.Transport.{TransportEvent, TransportError}
use hataori_rs.Transport.Memory.{Node, State, of_channel, with_channel}
use hataori_rs.Transport.Memory.Network.{reserve, join_queue, byte_limit}
use hataori_rs.Transport.Memory.Ledger.{payload_len-total_len, event_bytes, Sound, one_at, NodeOk}
use hataori_rs.Transport.Memory.Releasing.{
  node-found, of_channel-with_channel, shifted, weigh-with_channel,
}

-- What a reservation has tested: there is room for so many copies.
abbrev pub HasRoom : ProtocolLimits → Parcel → ℕ → ℕ → Node → Type 0
HasRoom l p bytes copies n =
    (length (of_channel p.channel n.incoming) + of_channel p.channel n.delayed_counts + copies
      ≤ l.max_queued_parcels_per_peer)
    × (n.queued_bytes + bytes * copies ≤ byte_limit l p.channel)

-- A reservation changes nothing. If it is granted there is room.
pub reserve-HasRoom :
    (p : Parcel) (bytes copies : ℕ) (s : State) (n : Node)
    → p.destination < length s.nodes
    → get_elem? s.nodes p.destination ≡ some n
    → ((e : TransportError) × (reserve p bytes copies s ≡ (err e, s)))
      ⊎ ((reserve p bytes copies s ≡ (ok tt, s)) × HasRoom s.limits p bytes copies n)
unfolding reserve
reserve-HasRoom p bytes copies s n inside here =
    let found = node-found s p.destination n inside here in
    let l = s.limits in
    let queued = length (of_channel p.channel n.incoming) + of_channel p.channel n.delayed_counts in
    elim (Bool-cases n.active) [
      | inr off ↦ inl (TransportError.disconnected p.destination, rw (found, off) refl)
      | inl on ↦ elim (Bool-cases (ltb (queued + copies) (2 ^ 64))) [
        | inr long ↦ inl (
          TransportError.byte_limit (2 ^ 64 - 1) l.max_queued_parcels_per_peer,
          rw (found, on, long) refl,
        )
        | inl a ↦ elim (Bool-cases (ltb s.limits.max_queued_parcels_per_peer (queued + copies))) [
          | inl full ↦ inl (
            TransportError.queue_full p.channel l.max_queued_parcels_per_peer,
            rw (found, on, a, full) refl,
          )
          | inr fits ↦ elim (Bool-cases (ltb (bytes * copies) (2 ^ 64))) [
            | inr long ↦ inl (
              TransportError.byte_limit (2 ^ 64 - 1) l.max_inflight_bytes_per_peer,
              rw (found, on, a, fits, long) refl,
            )
            | inl c ↦ elim (Bool-cases (ltb (n.queued_bytes + bytes * copies) (2 ^ 64))) [
              | inr long ↦ inl (
                TransportError.byte_limit (2 ^ 64 - 1) l.max_inflight_bytes_per_peer,
                rw (found, on, a, fits, c, long) refl,
              )
              | inl d ↦
                  elim (Bool-cases
                    (ltb (byte_limit s.limits p.channel) (n.queued_bytes + bytes * copies))) [
                      | inl much ↦ inl (
                        TransportError.byte_limit (n.queued_bytes + bytes * copies)
                            (byte_limit l p.channel),
                        rw (found, on, a, fits, c, d, much) refl,
                      )
                      | inr room ↦ inr (
                        rw (found, on, a, fits, c, d, room) refl,
                        (ground (arith, fits), ground (arith, room)),
                      )
                    ]
            ]
          ]
        ]
      ]
    ]

pub byte_limit-le :
    (l : ProtocolLimits) (c : Channel) → byte_limit l c ≤ l.max_inflight_bytes_per_peer
byte_limit-le l Channel.control = omega arith
byte_limit-le l Channel.action = omega arith
byte_limit-le l Channel.bulk = omega arith

module _ (event : TransportEvent) (queue : List TransportEvent) where
  sum_of-join_queue :
      (front : Bool)
      → sum_of event_bytes (join_queue front event queue)
        ≡ sum_of event_bytes queue + event_bytes event
  sum_of-join_queue true = omega arith
  sum_of-join_queue false = omega (arith, sum_of-append event_bytes queue (event ∷ []))

  pub length-join_queue : (front : Bool) → length (join_queue front event queue) ≡ length queue + 1
  length-join_queue true = omega arith
  length-join_queue false = omega (arith, length-append queue (event ∷ []))

  All-join_queue :
      (front : Bool) → All Sound queue → Sound event → All Sound (join_queue front event queue)
  All-join_queue true h e = (e, h)
  All-join_queue false h e = All-snoc Sound queue event h e

one_at-cases : (c at_ : Channel) → (one_at c at_ ≡ 0) ⊎ ((c ≡ at_) × (one_at c at_ ≡ 1))
one_at-cases Channel.control Channel.control = inr (refl, refl)
one_at-cases Channel.control Channel.action = inl refl
one_at-cases Channel.control Channel.bulk = inl refl
one_at-cases Channel.action Channel.control = inl refl
one_at-cases Channel.action Channel.action = inr (refl, refl)
one_at-cases Channel.action Channel.bulk = inl refl
one_at-cases Channel.bulk Channel.control = inl refl
one_at-cases Channel.bulk Channel.action = inl refl
one_at-cases Channel.bulk Channel.bulk = inr (refl, refl)

module _ (l : ProtocolLimits) (p : Parcel) (bytes : ℕ) (b : ℕ) (k : Channel → ℕ) (n : Node)
    (v : NodeOk l b k n) (known : payload_len p ≡ ok bytes)
    (room : length (of_channel p.channel n.incoming) + of_channel p.channel n.delayed_counts + 1
      ≤ l.max_queued_parcels_per_peer)
    (light : n.queued_bytes + bytes ≤ l.max_inflight_bytes_per_peer) where
  abbrev pub with_parcel : Bool → Node
  with_parcel front = record n {
    queued_bytes = n.queued_bytes + bytes;
    incoming =
        with_channel p.channel
          (join_queue front (TransportEvent.incoming p) (of_channel p.channel n.incoming))
          n.incoming;
  }

  -- The bound of a channel's queue after one more parcel on the channel of `p`.
  bound_after :
      (c : Channel)
      → length (of_channel c n.incoming) + k c + one_at c p.channel ≤ l.max_queued_parcels_per_peer
  bound_after c = elim (one_at-cases c p.channel) [
    | inl zero_ ↦ omega (arith, zero_, v.queue_bound c)
    | inr (same, one) ↦
        subst
          (λ d.
            length (of_channel d n.incoming) + k d + one_at c p.channel
            ≤ l.max_queued_parcels_per_peer)
          (sym same) (omega (arith, one, room, v.counts p.channel))
  ]

  size : total_len p.segments ≡ bytes
  size = payload_len-total_len p bytes known

  pub NodeOk-enqueued : (front : Bool) → NodeOk l b k (with_parcel front)
  NodeOk-enqueued front =
      let queue = of_channel p.channel n.incoming in
      let event = TransportEvent.incoming p in
      let joined = join_queue front event queue in
      record {
        bytes = omega (
          arith,
          v.bytes,
          weigh-with_channel p.channel joined n.incoming bytes
              (omega (arith, sum_of-join_queue event queue front, size)),
        );
        counts = v.counts;
        sound =
            of_channel-with_channel (λ c q. All Sound q) p.channel joined n.incoming
              (All-join_queue event queue front (v.sound p.channel) (known ∙ ap ok (sym size)))
              v.sound;
        notices = v.notices;
        queue_bound = λ c. omega (
          arith,
          bound_after c,
          shifted length p.channel joined n.incoming 1 0
              (omega (arith, length-join_queue event queue front)) c,
        );
        byte_bound = light;
        system_bound = v.system_bound;
      }

  abbrev pub with_held : Node
  with_held = record n {
    delayed_counts =
        with_channel p.channel (of_channel p.channel n.delayed_counts + 1) n.delayed_counts;
    queued_bytes = n.queued_bytes + bytes;
  }

  pub NodeOk-held : NodeOk l (b + bytes) (λ c. k c + one_at c p.channel) with_held
  NodeOk-held = record {
    bytes = omega (arith, v.bytes);
    counts = λ c. omega (
      arith,
      v.counts c,
      shifted (λ x. x) p.channel (of_channel p.channel n.delayed_counts + 1) n.delayed_counts 1 0
          (omega arith) c,
    );
    sound = v.sound;
    notices = v.notices;
    queue_bound = λ c. omega (arith, bound_after c);
    byte_bound = light;
    system_bound = v.system_bound;
  }
