-- ===== src/Transport/Memory/Draining.antt =====
-- crates/hataori-runtime-foundation/src/memory.rs: the events that a driver takes from its node.
use hataori_rs.Prelude.{
  ℕ, zero, suc, ◌+◌, ◌-◌, ◌≤◌, ◌<◌, ◌≡◌, refl, ◌∙◌, ap, subst, true, Option, none, some, List, [],
  ◌∷◌, ok, leb, length, length-set, get_elem?, get_elem?-lt, set, set-set, All, sum_of, arith,
}
use hataori_rs.Protocol.Ids.{Channel, LocalityId}
use hataori_rs.Protocol.Limits.{ProtocolLimits}
use hataori_rs.Protocol.Parcel.{payload_len}
use hataori_rs.Protocol.Frames.{total_len}
use hataori_rs.Transport.{TransportEvent, TransportStats}
use hataori_rs.Transport.Memory.{
  Node, State, PerChannel, of_channel, with_channel, next_event, pop_or, counted,
}
use hataori_rs.Transport.Memory.Network.{put_node}
use hataori_rs.Transport.Memory.Driving.{account, drain}
use hataori_rs.Transport.Memory.Ledger.{
  event_bytes, Sound, IsNotice, weigh, NodeOk, Holds, put-Holds, nobody,
}
use hataori_rs.Transport.Memory.Releasing.{node-found, of_channel-with_channel, shifted}
use hataori_rs.Transport.Memory.Sifting.{Took}

weigh_less :
    (at_ : Channel) (queue : List TransportEvent) (q : PerChannel (List TransportEvent)) (less : ℕ)
    → sum_of event_bytes queue + less ≡ sum_of event_bytes (of_channel at_ q)
    → weigh (with_channel at_ queue q) + less ≡ weigh q
weigh_less Channel.control queue q less e = omega (arith, e)
weigh_less Channel.action queue q less e = omega (arith, e)
weigh_less Channel.bulk queue q less e = omega (arith, e)

module _ (l : ProtocolLimits) (b : ℕ) (k : Channel → ℕ) where
  -- A node that an event was taken from: an incoming parcel is still on its account.
  abbrev PoppedOk : TransportEvent → Node → Type 0
  PoppedOk (TransportEvent.incoming p) m =
      (payload_len p ≡ ok (total_len p.segments))
      × (total_len p.segments ≤ m.queued_bytes)
      × ((stats : TransportStats)
          → NodeOk l b k
              (record m { queued_bytes = m.queued_bytes - total_len p.segments; stats = stats }))
  PoppedOk (TransportEvent.local_send_complete ticket) m = NodeOk l b k m
  PoppedOk (TransportEvent.send_failed ticket e) m = NodeOk l b k m
  PoppedOk (TransportEvent.peer_failed peer e) m = NodeOk l b k m
  PoppedOk TransportEvent.shutdown_complete m = NodeOk l b k m

  abbrev Popped : Option (TransportEvent × Node) → Type 0
  Popped none = Unit
  Popped (some (e, m)) = PoppedOk e m

  pop_or-Popped :
      (xs : List TransportEvent) (back : List TransportEvent → Node)
      (other : Option (TransportEvent × Node))
      → ((e : TransportEvent) (es : List TransportEvent) → xs ≡ e ∷ es → PoppedOk e (back es))
      → Popped other
      → Popped (pop_or xs back other)
  pop_or-Popped [] back other h o = o
  pop_or-Popped (e ∷ es) back other h o = h e es refl

  module _ (n : Node) (v : NodeOk l b k n) where
    popped_notice :
        (e : TransportEvent) (es : List TransportEvent)
        → n.system ≡ e ∷ es
        → PoppedOk e (record n { system = es })
    popped_notice e es eq =
        let rest : All IsNotice (e ∷ es) = subst (All IsNotice) eq v.notices in
        let w : NodeOk l b k (record n { system = es }) = record {
          bytes = v.bytes;
          counts = v.counts;
          sound = v.sound;
          notices = rest.1;
          queue_bound = v.queue_bound;
          byte_bound = v.byte_bound;
          system_bound = omega (arith, v.system_bound, ap length eq);
        } in
        take_notice e rest.0 w
      where
        take_notice :
            (e : TransportEvent)
            → IsNotice e
            → NodeOk l b k (record n { system = es })
            → PoppedOk e (record n { system = es })
        take_notice (TransportEvent.incoming p) h w = absurd h
        take_notice (TransportEvent.local_send_complete ticket) h w = w
        take_notice (TransportEvent.send_failed ticket x) h w = w
        take_notice (TransportEvent.peer_failed peer x) h w = w
        take_notice TransportEvent.shutdown_complete h w = w

    popped_parcel :
        (at_ : Channel) (e : TransportEvent) (es : List TransportEvent)
        → of_channel at_ n.incoming ≡ e ∷ es
        → PoppedOk e (record n { incoming = with_channel at_ es n.incoming })
    popped_parcel at_ (TransportEvent.incoming p) es eq =
        let rest : All Sound (TransportEvent.incoming p ∷ es) =
          subst (All Sound) eq (v.sound at_) in
        let lighter =
          weigh_less at_ es n.incoming (total_len p.segments)
            (omega (arith, ap (sum_of event_bytes) eq)) in
        (
          rest.0,
          omega (arith, v.bytes, lighter),
          λ stats. record {
            bytes = omega (arith, v.bytes, lighter);
            counts = v.counts;
            sound = of_channel-with_channel (λ c q. All Sound q) at_ es n.incoming rest.1 v.sound;
            notices = v.notices;
            queue_bound = λ c. omega (
              arith,
              v.queue_bound c,
              shifted length at_ es n.incoming 0 1 (omega (arith, ap length eq)) c,
            );
            byte_bound = omega (arith, v.byte_bound);
            system_bound = v.system_bound;
          },
        )
    popped_parcel at_ (TransportEvent.local_send_complete ticket) es eq =
        absurd (subst (All Sound) eq (v.sound at_)).0
    popped_parcel at_ (TransportEvent.send_failed ticket x) es eq =
        absurd (subst (All Sound) eq (v.sound at_)).0
    popped_parcel at_ (TransportEvent.peer_failed peer x) es eq =
        absurd (subst (All Sound) eq (v.sound at_)).0
    popped_parcel at_ TransportEvent.shutdown_complete es eq =
        absurd (subst (All Sound) eq (v.sound at_)).0

    next_event-Popped : Popped (next_event n)
    unfolding next_event
    next_event-Popped = pop_or-Popped n.system _ _ popped_notice (
        pop_or-Popped n.incoming.control _ _ (popped_parcel Channel.control) (
          pop_or-Popped n.incoming.action _ _ (popped_parcel Channel.action)
            (pop_or-Popped n.incoming.bulk _ _ (popped_parcel Channel.bulk) tt)))

account-Took :
    (s : State) (local : LocalityId) (n m : Node) (e : TransportEvent) (b : ℕ → ℕ)
    (k : ℕ → Channel → ℕ)
    → Holds nobody b k s
    → get_elem? s.nodes local ≡ some n
    → PoppedOk s.limits (b local) (k local) e m
    → Took nobody b k (account local m e) s
unfolding account put_node
account-Took s local n m (TransportEvent.incoming p) b k v here (known, enough, w) =
    let bytes = total_len p.segments in
    let left : leb bytes m.queued_bytes ≡ true = ground (arith, enough) in
    let after : Node = record m {
      queued_bytes = m.queued_bytes - bytes;
      stats = record m.stats {
        queued_bytes = m.queued_bytes - bytes;
        received_parcels = counted m.stats.received_parcels 1;
        received_bytes = counted m.stats.received_bytes bytes;
      };
    } in
    (
      set s.nodes local after,
      rw (known, left, set-set s.nodes local m after) refl,
      length-set s.nodes local after,
      put-Holds nobody b b k k s local n after v here (w after.stats) (λ i a. refl) (λ i c a. refl),
    )
account-Took s local n m (TransportEvent.local_send_complete ticket) b k v here w = (
  set s.nodes local m,
  refl,
  length-set s.nodes local m,
  put-Holds nobody b b k k s local n m v here w (λ i a. refl) (λ i c a. refl),
)
account-Took s local n m (TransportEvent.send_failed ticket x) b k v here w = (
  set s.nodes local m,
  refl,
  length-set s.nodes local m,
  put-Holds nobody b b k k s local n m v here w (λ i a. refl) (λ i c a. refl),
)
account-Took s local n m (TransportEvent.peer_failed peer x) b k v here w = (
  set s.nodes local m,
  refl,
  length-set s.nodes local m,
  put-Holds nobody b b k k s local n m v here w (λ i a. refl) (λ i c a. refl),
)
account-Took s local n m TransportEvent.shutdown_complete b k v here w = (
  set s.nodes local m,
  refl,
  length-set s.nodes local m,
  put-Holds nobody b b k k s local n m v here w (λ i a. refl) (λ i c a. refl),
)

-- The events of a drain, no more than asked for, and the accounts after it.
abbrev pub Drained : LocalityId → ℕ → (ℕ → ℕ) → (ℕ → Channel → ℕ) → State → Type 0
Drained local n b k s =
    (events : List TransportEvent) × (nodes : List Node) × (drain local n s
      ≡ (ok events, record s { nodes = nodes }))
    × (length nodes ≡ length s.nodes)
    × (length events ≤ n)
    × Holds nobody b k (record s { nodes = nodes })

drain_more :
    (n : ℕ) (local : LocalityId) (s : State) (b : ℕ → ℕ) (k : ℕ → Channel → ℕ) (m : Node)
    (o : Option (TransportEvent × Node))
    → local < length s.nodes
    → Holds nobody b k s
    → get_elem? s.nodes local ≡ some m
    → next_event m ≡ o
    → Popped s.limits (b local) (k local) o
    → ((t : State) → local < length t.nodes → Holds nobody b k t → Drained local n b k t)
    → Drained local (suc n) b k s
unfolding drain
drain_more n local s b k m none inside v here e w next =
    ([], s.nodes, rw (node-found s local m inside here, e) refl, refl, omega arith, v)
drain_more n local s b k m (some (event, after)) inside v here e w next =
    let (nodes, step, size, h) = account-Took s local m after event b k v here w in
    let (events, nodes', rest, size', few, h') =
      next (record s { nodes = nodes }) (rw size inside) h in
    (
      event ∷ events,
      nodes',
      rw (node-found s local m inside here, e, step, rest) refl,
      size' ∙ size,
      omega (arith, few),
      h',
    )

pub drain-Drained :
    (n : ℕ) (local : LocalityId) (s : State) (b : ℕ → ℕ) (k : ℕ → Channel → ℕ)
    → local < length s.nodes
    → Holds nobody b k s
    → Drained local n b k s
unfolding drain
drain-Drained zero local s b k inside v = ([], s.nodes, refl, refl, omega arith, v)
drain-Drained (suc n) local s b k inside v =
    let (m, here) = get_elem?-lt s.nodes local inside in
    drain_more n local s b k m (next_event m) inside v here refl
      (next_event-Popped s.limits (b local) (k local) m (v.accounts local m refl here))
      (λ t h w. drain-Drained n local t b k h w)
