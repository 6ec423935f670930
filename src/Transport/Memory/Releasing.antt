-- ===== src/Transport/Memory/Releasing.antt =====
-- crates/hataori-runtime-foundation/src/memory.rs: what a parcel that is no longer held back does to
-- the accounts.
use hataori_rs.Prelude.{
  All-snoc, ℕ, ◌+◌, ◌-◌, ◌*◌, ◌<◌, ◌≡◌, refl, sym, ◌∙◌, ap, true, some, List, [], ◌∷◌, ◌++◌, ok,
  ltb, length, length-append, get_elem?, All, sum_of, sum_of-append, arith,
}
use hataori_rs.Protocol.Ids.{Channel, LocalityId}
use hataori_rs.Protocol.Limits.{ProtocolLimits}
use hataori_rs.Protocol.Parcel.{payload_len}
use hataori_rs.Protocol.Frames.{total_len}
use hataori_rs.Transport.{TransportEvent}
use hataori_rs.Transport.Memory.{Node, Delayed, State, PerChannel, of_channel, with_channel}
use hataori_rs.Transport.Memory.Network.{index, node}
use hataori_rs.Transport.Memory.Ledger.{
  payload_len-total_len, event_bytes, Sound, weigh, one_at, NodeOk,
}

pub node-found :
    (s : State) (d : LocalityId) (n : Node)
    → d < length s.nodes
    → get_elem? s.nodes d ≡ some n
    → node d s ≡ (ok n, s)
unfolding node index
node-found s d n h e =
    let small : ltb d (length s.nodes) ≡ true = ground arith in rw (small, e) refl

-- A write at one channel, read at any.
pub of_channel-with_channel :
    {X : Type 0} (P : Channel → X → Type 0) (at_ : Channel) (x : X) (q : PerChannel X)
    → P at_ x
    → ((c : Channel) → P c (of_channel c q))
    → (c : Channel) → P c (of_channel c (with_channel at_ x q))
of_channel-with_channel P Channel.control x q p others Channel.control = p
of_channel-with_channel P Channel.control x q p others Channel.action = others Channel.action
of_channel-with_channel P Channel.control x q p others Channel.bulk = others Channel.bulk
of_channel-with_channel P Channel.action x q p others Channel.control = others Channel.control
of_channel-with_channel P Channel.action x q p others Channel.action = p
of_channel-with_channel P Channel.action x q p others Channel.bulk = others Channel.bulk
of_channel-with_channel P Channel.bulk x q p others Channel.control = others Channel.control
of_channel-with_channel P Channel.bulk x q p others Channel.action = others Channel.action
of_channel-with_channel P Channel.bulk x q p others Channel.bulk = p

-- A number of a channel that changes at one.
pub shifted :
    {X : Type 0} (f : X → ℕ) (at_ : Channel) (x : X) (q : PerChannel X) (more less : ℕ)
    → f x + less ≡ f (of_channel at_ q) + more
    → (c : Channel)
    → f (of_channel c (with_channel at_ x q)) + one_at c at_ * less
      ≡ f (of_channel c q) + one_at c at_ * more
shifted f Channel.control x q more less e Channel.control = omega (arith, e)
shifted f Channel.control x q more less e Channel.action = omega (arith, e)
shifted f Channel.control x q more less e Channel.bulk = omega (arith, e)
shifted f Channel.action x q more less e Channel.control = omega (arith, e)
shifted f Channel.action x q more less e Channel.action = omega (arith, e)
shifted f Channel.action x q more less e Channel.bulk = omega (arith, e)
shifted f Channel.bulk x q more less e Channel.control = omega (arith, e)
shifted f Channel.bulk x q more less e Channel.action = omega (arith, e)
shifted f Channel.bulk x q more less e Channel.bulk = omega (arith, e)

pub weigh-with_channel :
    (at_ : Channel) (queue : List TransportEvent) (q : PerChannel (List TransportEvent)) (more : ℕ)
    → sum_of event_bytes queue ≡ sum_of event_bytes (of_channel at_ q) + more
    → weigh (with_channel at_ queue q) ≡ weigh q + more
weigh-with_channel Channel.control queue q more e = omega (arith, e)
weigh-with_channel Channel.action queue q more e = omega (arith, e)
weigh-with_channel Channel.bulk queue q more e = omega (arith, e)

-- A held back parcel, of the account of its destination.
module _ (item : Delayed) (l : ProtocolLimits) (b b' : ℕ) (k k' : Channel → ℕ) (n : Node)
    (v : NodeOk l b k n) (known : payload_len item.parcel ≡ ok item.bytes)
    (less_b : b ≡ b' + item.bytes)
    (less_k : (c : Channel) → k c ≡ k' c + one_at c item.parcel.channel) where
  same_one : one_at item.parcel.channel item.parcel.channel ≡ 1
  same_one = one item.parcel.channel
    where
      one : (c : Channel) → one_at c c ≡ 1
      one Channel.control = refl
      one Channel.action = refl
      one Channel.bulk = refl

  pub counted-held : 0 < of_channel item.parcel.channel n.delayed_counts
  counted-held = omega (arith, v.counts item.parcel.channel, less_k item.parcel.channel, same_one)

  counts_left :
      (c : Channel)
      → of_channel c (
          with_channel item.parcel.channel
            (of_channel item.parcel.channel n.delayed_counts - 1)
            n.delayed_counts)
        ≡ k' c
  counts_left c = omega (
    arith,
    shifted (λ x. x) item.parcel.channel (of_channel item.parcel.channel n.delayed_counts - 1)
        n.delayed_counts 0 1 (omega (arith, counted-held)) c,
    v.counts c,
    less_k c,
  )

  pub NodeOk-released : NodeOk l b' k' (record n {
    delayed_counts =
        with_channel item.parcel.channel
          (of_channel item.parcel.channel n.delayed_counts - 1)
          n.delayed_counts;
    incoming =
        with_channel item.parcel.channel
          (of_channel item.parcel.channel n.incoming ++ TransportEvent.incoming item.parcel ∷ [])
          n.incoming;
  })
  NodeOk-released =
      let queue = of_channel item.parcel.channel n.incoming in
      let event = TransportEvent.incoming item.parcel in
      let size : total_len item.parcel.segments ≡ item.bytes =
        payload_len-total_len item.parcel item.bytes known in
      record {
        bytes = omega (
          arith,
          v.bytes,
          less_b,
          size,
          weigh-with_channel item.parcel.channel (queue ++ event ∷ []) n.incoming item.bytes
              (omega (arith, sum_of-append event_bytes queue (event ∷ []), size)),
        );
        counts = counts_left;
        sound =
            of_channel-with_channel (λ c q. All Sound q) item.parcel.channel (queue ++ event ∷ [])
              n.incoming
              (All-snoc Sound queue event (v.sound item.parcel.channel) (known ∙ ap ok (sym size)))
              v.sound;
        notices = v.notices;
        queue_bound = λ c. omega (
          arith,
          v.queue_bound c,
          less_k c,
          shifted length item.parcel.channel (queue ++ event ∷ []) n.incoming 1 0
              (omega (arith, length-append queue (event ∷ []))) c,
        );
        byte_bound = v.byte_bound;
        system_bound = v.system_bound;
      }

  pub NodeOk-cancelled : NodeOk l b' k' (record n {
    delayed_counts =
        with_channel item.parcel.channel
          (of_channel item.parcel.channel n.delayed_counts - 1)
          n.delayed_counts;
    queued_bytes = n.queued_bytes - item.bytes;
  })
  NodeOk-cancelled = record {
    bytes = omega (arith, v.bytes, less_b);
    counts = counts_left;
    sound = v.sound;
    notices = v.notices;
    queue_bound = λ c. omega (arith, v.queue_bound c, less_k c);
    byte_bound = omega (arith, v.byte_bound);
    system_bound = v.system_bound;
  }
