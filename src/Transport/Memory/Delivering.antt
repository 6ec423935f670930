-- ===== src/Transport/Memory/Delivering.antt =====
-- crates/hataori-runtime-foundation/src/memory.rs: `try_send` keeps the accounts, whatever the faults.
use hataori_rs.Prelude.{
  All-snoc, ℕ, ◌+◌, ◌^◌, ◌≤◌, ◌<◌, ◌≡◌, ◌≢◌, refl, sym, ◌-◌, min, subst, Option, All, eqb, inl, inr,
  Bool-cases, get_elem?-set_self, get_elem?-set_other, length-append, ◌∙◌, ap, Bool, true, some,
  List, [], ◌∷◌, ◌++◌, Result, ok, err, panic, ltb, length, length-set, get_elem?, set,
  sum_of-append, arith,
}
use hataori_rs.Prelude.Action.{continue}
use hataori_rs.Protocol.Ids.{LocalityId, Channel}
use hataori_rs.Protocol.Limits.{ProtocolLimits}
use hataori_rs.Protocol.Parcel.{Parcel, payload_len}
use hataori_rs.Transport.{TransportEvent, TransportError}
use hataori_rs.Transport.Memory.{Node, Delayed, State, PerChannel, of_channel, with_channel}
use hataori_rs.Transport.Memory.Network.{Step, put_node, enqueue, join_queue}
use hataori_rs.Transport.Memory.Driving.{hold_back, saturating, at_least_one}
use hataori_rs.Transport.Memory.Ledger.{
  IsNotice, bytes_for, count_for, bytes_to, count_to, NodeOk, NodeOk-moved, Placed, nobody, Inv,
  put-Holds,
}
use hataori_rs.Transport.Memory.Releasing.{node-found}
use hataori_rs.Transport.Memory.Sending.{length-join_queue, NodeOk-enqueued, NodeOk-held}

-- An outcome that is no panic, with the accounts kept. The state has the property `G` also after an error.
abbrev pub Safely :
    {X : Type 0}
    → ℕ
    → (State → Type 0)
    → (X → State → Type 0)
    → Result TransportError X × State
    → Type 0
Safely localities G P (ok x, t) = Inv t × (length t.nodes ≡ localities) × G t × P x t
Safely localities G P (err e, t) = Inv t × (length t.nodes ≡ localities) × G t
Safely localities G P (panic, t) = ⊥

abbrev pub Anything : {X : Type 0} → X → State → Type 0
Anything x t = Unit

pub Safely-then :
    {X Y : Type 0} (localities : ℕ) (G : State → Type 0) (P : X → State → Type 0)
    (P' : Y → State → Type 0) (f : X → Step Y) (r : Result TransportError X × State)
    → Safely localities G P r
    → ((x : X) (t : State)
        → Inv t
        → length t.nodes ≡ localities
        → G t
        → P x t
        → Safely localities G P' (f x t))
    → Safely localities G P' (continue f r.0 r.1)
Safely-then localities G P P' f (ok x, t) (v, size, g, p) next = next x t v size g p
Safely-then localities G P P' f (err e, t) h next = h
Safely-then localities G P P' f (panic, t) h next = h

-- The system queue of a node has room for one more notice.
abbrev pub Short : LocalityId → State → Type 0
Short local t =
    (n : Node)
    → get_elem? t.nodes local ≡ some n
    → length n.system ≤ t.limits.max_queued_parcels_per_peer

-- What a step makes of the parcels that are held back and of the time: the property `Q` of the former is
-- kept, and time does not go back.
abbrev pub Goes : (Delayed → Type 0) → ℕ → State → Type 0
Goes Q tick t = All Q t.delayed × (min tick (2 ^ 64 - 1) ≤ t.tick)

same_found : (o : Option Node) (n m : Node) → o ≡ some n → o ≡ some m → n ≡ m
same_found o n m e e' = cc

-- A write at a node that leaves its system queue as it is.
pub set-Short :
    (local : LocalityId) (s : State) (d : ℕ) (n m : Node)
    → Short local s
    → get_elem? s.nodes d ≡ some n
    → m.system ≡ n.system
    → Short local (record s { nodes = set s.nodes d m })
set-Short local s d n m short here same o found = elim (Bool-cases (eqb d local)) [
  | inl at_ ↦
      let there : d ≡ local = ground arith in
      let put : m ≡ o =
        same_found (get_elem? (set s.nodes d m) local) m o
          (subst (λ j. get_elem? (set s.nodes d m) j ≡ some m) there
            (get_elem?-set_self s.nodes d n m here))
          found in
      let before = short n (subst (λ j. get_elem? s.nodes j ≡ some n) there here) in
      omega (arith, before, ap length same, ap (λ x. length x.system) put)
  | inr other ↦
      let apart : d ≢ local = λ e. ground arith in
      short o (sym (get_elem?-set_other s.nodes d local m apart) ∙ found)
]

-- A write at the node of the locality itself.
pub written-Short :
    (local : LocalityId) (s : State) (n m : Node)
    → get_elem? s.nodes local ≡ some n
    → length m.system ≤ s.limits.max_queued_parcels_per_peer
    → Short local (record s { nodes = set s.nodes local m })
written-Short local s n m here few o found =
    let put : m ≡ o =
      same_found (get_elem? (set s.nodes local m) local) m o
        (get_elem?-set_self s.nodes local n m here) found in
    omega (arith, few, ap (λ x. length x.system) put)

-- A write at a node that keeps its account.
pub written :
    (s : State) (d : ℕ) (n m : Node)
    → Inv s
    → get_elem? s.nodes d ≡ some n
    → NodeOk s.limits (bytes_to s.delayed d) (count_to s.delayed d) m
    → Inv (record s { nodes = set s.nodes d m })
written s d n m v here w = record {
  holds =
      put-Holds nobody _ (bytes_to s.delayed) _ (count_to s.delayed) s d n m v.holds here w
        (λ i a. refl) (λ i c a. refl);
  placed = rw (length-set s.nodes d m) v.placed;
  queues_fit = v.queues_fit;
  bytes_fit = v.bytes_fit;
}

-- A notice for the system queue of a node.
pub NodeOk-notice :
    (l : ProtocolLimits) (b : ℕ) (k : Channel → ℕ) (n m : Node) (e : TransportEvent)
    → NodeOk l b k n
    → IsNotice e
    → m.system ≡ n.system ++ e ∷ []
    → m.incoming ≡ n.incoming
    → m.delayed_counts ≡ n.delayed_counts
    → m.queued_bytes ≡ n.queued_bytes
    → length n.system ≤ l.max_queued_parcels_per_peer
    → NodeOk l b k m
NodeOk-notice l b k n m e v h e1 e2 e3 e4 short = record {
  bytes = rw (e4, e2) v.bytes;
  counts = λ c. rw e3 (v.counts c);
  sound = λ c. rw e2 (v.sound c);
  notices = rw e1 (All-snoc IsNotice n.system e v.notices h);
  queue_bound = λ c. rw e2 (v.queue_bound c);
  byte_bound = rw e4 v.byte_bound;
  system_bound = rw e1 (omega (arith, length-append n.system (e ∷ []), short));
}

-- A node with one more parcel in its queue.
abbrev pub joined : Parcel → ℕ → Bool → Node → Node
joined p bytes front n = record n {
  queued_bytes = n.queued_bytes + bytes;
  incoming =
      with_channel p.channel
        (join_queue front (TransportEvent.incoming p) (of_channel p.channel n.incoming)) n.incoming;
}

pub length-joined :
    (p : Parcel) (bytes : ℕ) (front : Bool) (n : Node)
    → length (of_channel p.channel (joined p bytes front n).incoming)
      ≡ length (of_channel p.channel n.incoming) + 1
length-joined p bytes front n =
    ap length (
      same p.channel n.incoming
        (join_queue front (TransportEvent.incoming p) (of_channel p.channel n.incoming)))
    ∙ length-join_queue (TransportEvent.incoming p) (of_channel p.channel n.incoming) front
  where
    same :
        (c : Channel) (q : PerChannel (List TransportEvent)) (x : List TransportEvent)
        → of_channel c (with_channel c x q) ≡ x
    same Channel.control q x = refl
    same Channel.action q x = refl
    same Channel.bulk q x = refl

module _ (p : Parcel) (bytes : ℕ) (known : payload_len p ≡ ok bytes) where
  -- One parcel enters its destination's queue.
  pub enqueue-written :
      (front : Bool) (s : State) (n : Node)
      → Inv s
      → p.destination < length s.nodes
      → get_elem? s.nodes p.destination ≡ some n
      → length (of_channel p.channel n.incoming) + of_channel p.channel n.delayed_counts + 1
        ≤ s.limits.max_queued_parcels_per_peer
      → n.queued_bytes + bytes ≤ s.limits.max_inflight_bytes_per_peer
      → (enqueue p bytes front s
          ≡ (ok tt, record s { nodes = set s.nodes p.destination (joined p bytes front n) }))
        × Inv (record s { nodes = set s.nodes p.destination (joined p bytes front n) })
  unfolding enqueue put_node
  enqueue-written front s n v inside here room light =
      let w = v.holds.accounts p.destination n refl here in
      let small : ltb (n.queued_bytes + bytes) (2 ^ 64) ≡ true =
        ground (arith, light, v.bytes_fit) in
      (
        rw (node-found s p.destination n inside here, small) refl,
        written s p.destination n (joined p bytes front n) v here (
            NodeOk-enqueued s.limits p bytes (bytes_to s.delayed p.destination)
              (count_to s.delayed p.destination) n w known room light front),
      )

  -- One parcel is held back.
  pub hold_back-Safely :
      (Q : Delayed → Type 0) (local : LocalityId) (ticks : ℕ) (s : State) (n : Node)
      → ((item : Delayed) → item.parcel ≡ p → Q item)
      → All Q s.delayed
      → Short local s
      → Inv s
      → p.destination < length s.nodes
      → get_elem? s.nodes p.destination ≡ some n
      → length (of_channel p.channel n.incoming) + of_channel p.channel n.delayed_counts + 1
        ≤ s.limits.max_queued_parcels_per_peer
      → n.queued_bytes + bytes ≤ s.limits.max_inflight_bytes_per_peer
      → Safely (length s.nodes) (Goes Q s.tick) (λ _. Short local) (hold_back p bytes ticks s)
  unfolding hold_back put_node
  hold_back-Safely Q local ticks s n fresh q short v inside here room light =
      let w = v.holds.accounts p.destination n refl here in
      let d = p.destination in
      let small : ltb (n.queued_bytes + bytes) (2 ^ 64) ≡ true =
        ground (arith, light, v.bytes_fit) in
      let few : ltb (of_channel p.channel n.delayed_counts + 1) (2 ^ 64) ≡ true =
        ground (arith, room, v.queues_fit) in
      let m : Node = record n {
        delayed_counts =
            with_channel p.channel (of_channel p.channel n.delayed_counts + 1) n.delayed_counts;
        queued_bytes = n.queued_bytes + bytes;
      } in
      let item : Delayed = record {
        release_at = saturating s.tick (at_least_one ticks);
        destination = d;
        parcel = p;
        bytes = bytes;
      } in
      let more_b : (i : ℕ)
          → bytes_to (s.delayed ++ item ∷ []) i ≡ bytes_to s.delayed i + bytes_for i item =
        λ i. omega (arith, sum_of-append (bytes_for i) s.delayed (item ∷ [])) in
      let more_k : (i : ℕ) (c : Channel)
          → count_to (s.delayed ++ item ∷ []) i c ≡ count_to s.delayed i c + count_for i c item =
        λ i c. omega (arith, sum_of-append (count_for i c) s.delayed (item ∷ [])) in
      let kept =
        NodeOk-moved s.limits _ (bytes_to (s.delayed ++ item ∷ []) d) _
          (count_to (s.delayed ++ item ∷ []) d) m (ground (arith, more_b d))
          (λ c. ground (arith, more_k d c))
          (NodeOk-held s.limits p bytes (bytes_to s.delayed d) (count_to s.delayed d) n w known room
            light) in
      rw (node-found s d n inside here, few, small)
        (
          record {
            holds = record {
              accounts =
                  (put-Holds nobody _ (bytes_to (s.delayed ++ item ∷ [])) _
                    (count_to (s.delayed ++ item ∷ [])) s d n m v.holds here kept
                    (λ i a. ground (arith, more_b i))
                    (λ i c a. ground (arith, more_k i c))).accounts;
            };
            placed =
                rw (length-set s.nodes d m)
                  (All-snoc (Placed (length s.nodes)) s.delayed item v.placed (inside, known));
            queues_fit = v.queues_fit;
            bytes_fit = v.bytes_fit;
          },
          length-set s.nodes d m,
          (All-snoc Q s.delayed item q (fresh item refl), omega arith),
          set-Short local s d n m short here refl,
        )
