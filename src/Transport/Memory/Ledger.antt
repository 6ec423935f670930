-- ===== src/Transport/Memory/Ledger.antt =====
-- crates/hataori-runtime-foundation/src/memory.rs: a node's account against its queues and the parcels
-- that are held back for it.
use hataori_rs.Prelude.{
  ℕ, ◌+◌, ◌^◌, ◌≤◌, ◌<◌, ◌≡◌, ◌≢◌, refl, sym, ◌∙◌, ap, subst, Bool, false, Option, some, List, [],
  ok, eqb, if◌then◌else◌, length, get_elem?, set, All, sum_of, arith, inl, inr, Bool-cases,
  get_elem?-set_self, get_elem?-set_other,
}
use hataori_rs.Protocol.Ids.{Channel}
use hataori_rs.Protocol.Limits.{ProtocolLimits}
use hataori_rs.Protocol.Parcel.{Parcel, payload_len}
use hataori_rs.Protocol.Frames.{total_len, sum_lengths-total_len}
use hataori_rs.Transport.{TransportEvent}
use hataori_rs.Transport.Memory.{
  Node, Delayed, State, PerChannel, of_channel, with_channel, no_counts, no_queues,
}

pub payload_len-total_len :
    (p : Parcel) (bytes : ℕ) → payload_len p ≡ ok bytes → total_len p.segments ≡ bytes
unfolding payload_len
payload_len-total_len p bytes known =
    omega (arith, (sum_lengths-total_len 0 p.segments (omega arith) known).0)

abbrev pub event_bytes : TransportEvent → ℕ
event_bytes (TransportEvent.incoming p) = total_len p.segments
event_bytes (TransportEvent.local_send_complete ticket) = 0
event_bytes (TransportEvent.send_failed ticket e) = 0
event_bytes (TransportEvent.peer_failed peer e) = 0
event_bytes TransportEvent.shutdown_complete = 0

-- A parcel whose size is known.
abbrev pub Sound : TransportEvent → Type 0
Sound (TransportEvent.incoming p) = payload_len p ≡ ok (total_len p.segments)
Sound (TransportEvent.local_send_complete ticket) = ⊥
Sound (TransportEvent.send_failed ticket e) = ⊥
Sound (TransportEvent.peer_failed peer e) = ⊥
Sound TransportEvent.shutdown_complete = ⊥

abbrev pub IsNotice : TransportEvent → Type 0
IsNotice (TransportEvent.incoming p) = ⊥
IsNotice (TransportEvent.local_send_complete ticket) = Unit
IsNotice (TransportEvent.send_failed ticket e) = Unit
IsNotice (TransportEvent.peer_failed peer e) = Unit
IsNotice TransportEvent.shutdown_complete = Unit

abbrev pub weigh : PerChannel (List TransportEvent) → ℕ
weigh q = sum_of event_bytes q.control + sum_of event_bytes q.action + sum_of event_bytes q.bulk

-- 1 if the channels are the same, else 0.
abbrev pub one_at : Channel → Channel → ℕ
one_at c at_ = of_channel c (with_channel at_ 1 no_counts)

abbrev pub bytes_for : ℕ → Delayed → ℕ
bytes_for d item = if eqb item.destination d then item.bytes else 0

abbrev pub count_for : ℕ → Channel → Delayed → ℕ
count_for d c item = if eqb item.destination d then one_at c item.parcel.channel else 0

abbrev pub bytes_to : List Delayed → ℕ → ℕ
bytes_to items d = sum_of (bytes_for d) items

abbrev pub count_to : List Delayed → ℕ → Channel → ℕ
count_to items d c = sum_of (count_for d c) items

-- A node's account, when `b` bytes are held back for it, and `k c` parcels on the channel `c`.
pub record NodeOk (l : ProtocolLimits) (b : ℕ) (k : Channel → ℕ) (n : Node) : Type 0 where
  pub bytes : n.queued_bytes ≡ weigh n.incoming + b
  pub counts : (c : Channel) → of_channel c n.delayed_counts ≡ k c
  pub sound : (c : Channel) → All Sound (of_channel c n.incoming)
  pub notices : All IsNotice n.system
  pub queue_bound :
      (c : Channel) → length (of_channel c n.incoming) + k c ≤ l.max_queued_parcels_per_peer
  pub byte_bound : n.queued_bytes ≤ l.max_inflight_bytes_per_peer
  -- A send tests the limit once, and may leave two notices.
  pub system_bound : length n.system ≤ l.max_queued_parcels_per_peer + 1

-- The accounts of all nodes, but those that are skipped.
pub record Holds (skip : ℕ → Bool) (b : ℕ → ℕ) (k : ℕ → Channel → ℕ) (s : State) : Type 0 where
  pub accounts :
      (d : ℕ) (n : Node)
      → skip d ≡ false
      → get_elem? s.nodes d ≡ some n
      → NodeOk s.limits (b d) (k d) n

-- A parcel held back for a locality that there is, its size known.
abbrev pub Placed : ℕ → Delayed → Type 0
Placed localities item = (item.destination < localities) × (payload_len item.parcel ≡ ok item.bytes)

abbrev pub nobody : ℕ → Bool
nobody d = false

pub record Inv (s : State) : Type 0 where
  pub holds : Holds nobody (bytes_to s.delayed) (count_to s.delayed) s
  pub placed : All (Placed (length s.nodes)) s.delayed
  pub queues_fit : s.limits.max_queued_parcels_per_peer < 2 ^ 64
  pub bytes_fit : s.limits.max_inflight_bytes_per_peer < 2 ^ 64

same_node : (o : Option Node) (n m : Node) → o ≡ some n → o ≡ some m → n ≡ m
same_node o n m e e' = cc

pub NodeOk-moved :
    (l : ProtocolLimits) (b b' : ℕ) (k k' : Channel → ℕ) (n : Node)
    → b ≡ b'
    → ((c : Channel) → k c ≡ k' c)
    → NodeOk l b k n
    → NodeOk l b' k' n
NodeOk-moved l b b' k k' n e each v = record {
  bytes = v.bytes ∙ ap (λ x. weigh n.incoming + x) e;
  counts = λ c. v.counts c ∙ each c;
  sound = v.sound;
  notices = v.notices;
  queue_bound = λ c. omega (arith, v.queue_bound c, each c);
  byte_bound = v.byte_bound;
  system_bound = v.system_bound;
}

-- The account of an empty node.
pub NodeOk-empty :
    (l : ProtocolLimits) (n : Node)
    → n.system ≡ []
    → n.incoming ≡ no_queues
    → n.delayed_counts ≡ no_counts
    → n.queued_bytes ≡ 0
    → NodeOk l 0 (λ _. 0) n
NodeOk-empty l n e1 e2 e3 e4 = record {
  bytes = rw (e2, e4) refl;
  counts = λ c. rw e3 (at_zero c);
  sound = λ c. rw e2 (none_there c);
  notices = rw e1 tt;
  queue_bound = λ c. rw e2 (short c);
  byte_bound = rw e4 (omega arith);
  system_bound = rw e1 (omega arith);
}
  where
    at_zero : (c : Channel) → of_channel c no_counts ≡ 0
    at_zero Channel.control = refl
    at_zero Channel.action = refl
    at_zero Channel.bulk = refl

    short : (c : Channel) → length (of_channel c no_queues) + 0 ≤ l.max_queued_parcels_per_peer
    short Channel.control = omega arith
    short Channel.action = omega arith
    short Channel.bulk = omega arith

    none_there : (c : Channel) → All Sound (of_channel c no_queues)
    none_there Channel.control = tt
    none_there Channel.action = tt
    none_there Channel.bulk = tt

-- A write at one node, which is not skipped any more.
pub put-Holds-wider :
    (skip skip' : ℕ → Bool) (b b' : ℕ → ℕ) (k k' : ℕ → Channel → ℕ) (s : State) (d : ℕ) (n m : Node)
    → Holds skip b k s
    → get_elem? s.nodes d ≡ some n
    → NodeOk s.limits (b' d) (k' d) m
    → ((i : ℕ) → d ≢ i → b i ≡ b' i)
    → ((i : ℕ) (c : Channel) → d ≢ i → k i c ≡ k' i c)
    → ((i : ℕ) → d ≢ i → skip' i ≡ false → skip i ≡ false)
    → Holds skip' b' k' (record s { nodes = set s.nodes d m })
put-Holds-wider skip skip' b b' k k' s d n m v here new_ same_b same_k wider = record {
  accounts = λ i o counts found. elim (Bool-cases (eqb d i)) [
    | inl same ↦
        let there : d ≡ i = ground arith in
        let back : get_elem? (set s.nodes d m) d ≡ some o =
          subst (λ j. get_elem? (set s.nodes d m) j ≡ some o) (sym there) found in
        let put : m ≡ o =
          same_node (get_elem? (set s.nodes d m) d) m o (get_elem?-set_self s.nodes d n m here)
            back in
        subst (λ i. NodeOk s.limits (b' i) (k' i) o) there
          (subst (NodeOk s.limits (b' d) (k' d)) put new_)
    | inr other ↦
        let apart : d ≢ i = λ e. ground arith in
        NodeOk-moved s.limits (b i) (b' i) (k i) (k' i) o (same_b i apart) (λ c. same_k i c apart)
          (v.accounts i o (wider i apart counts)
            (sym (get_elem?-set_other s.nodes d i m apart) ∙ found))
  ];
}

-- A write at one node.
pub put-Holds :
    (skip : ℕ → Bool) (b b' : ℕ → ℕ) (k k' : ℕ → Channel → ℕ) (s : State) (d : ℕ) (n m : Node)
    → Holds skip b k s
    → get_elem? s.nodes d ≡ some n
    → NodeOk s.limits (b' d) (k' d) m
    → ((i : ℕ) → d ≢ i → b i ≡ b' i)
    → ((i : ℕ) (c : Channel) → d ≢ i → k i c ≡ k' i c)
    → Holds skip b' k' (record s { nodes = set s.nodes d m })
put-Holds skip b b' k k' s d n m v here new_ same_b same_k =
    put-Holds-wider skip skip b b' k k' s d n m v here new_ same_b same_k (λ i apart h. h)
