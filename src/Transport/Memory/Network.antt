-- ===== src/Transport/Memory/Network.antt =====
-- crates/hataori-runtime-foundation/src/memory.rs: the methods of `State`. A sum that passes 64 bits
-- panics, and so does a difference below 0.
use hataori_rs.Prelude.{
  ℕ, ◌+◌, ◌-◌, ◌*◌, ◌^◌, Bool, true, false, ◌||◌, not, List, [], ◌∷◌, ◌++◌, Result, ok, err, panic,
  ltb, leb, eqb, if◌then◌else◌, length, get_elem?, set,
}
use hataori_rs.Prelude.Action.{Action, ◌>>=◌, ◌>>◌, pure, fail, read, get, modify, expect}
use hataori_rs.Protocol.Ids.{LocalityId, Channel}
use hataori_rs.Protocol.Limits.{ProtocolLimits}
use hataori_rs.Protocol.Parcel.{Parcel}
use hataori_rs.Transport.{TransportError, TransportEvent}
use hataori_rs.Transport.Memory.{Node, Delayed, State, of_channel, with_channel}

abbrev pub Step : Type 0 → Type 0
Step A = Action State TransportError A

unfoldable pub index : State → LocalityId → Result TransportError ℕ
index s locality =
    if ltb locality (length s.nodes)
    then ok locality
    else err (TransportError.invalid_destination locality)

unfoldable pub node : LocalityId → Step Node
unfolding index
node locality = do i ← read (λ s. index s locality); s ← get; expect (get_elem? s.nodes i)

-- What is done to a node behind `node_mut`.
unfoldable pub put_node : LocalityId → Node → Step (Unit {0})
put_node i n = modify λ s. record s { nodes = set s.nodes i n }

abbrev pub plus : ℕ → ℕ → Step ℕ
plus a b = if ltb (a + b) (2 ^ 64) then pure (a + b) else read (λ _. panic)

abbrev pub minus : ℕ → ℕ → Step ℕ
minus a b = if leb b a then pure (a - b) else read (λ _. panic)

abbrev pub ensure : Bool → TransportError → Step (Unit {0})
ensure test e = if test then pure tt else fail e

-- `checked_add` and `checked_mul` in `reserve`.
abbrev pub within : ℕ → ℕ → Step ℕ
within value limit =
    if ltb value (2 ^ 64) then pure value else fail (TransportError.byte_limit (2 ^ 64 - 1) limit)

abbrev pub byte_limit : ProtocolLimits → Channel → ℕ
byte_limit l Channel.control = l.max_inflight_bytes_per_peer
byte_limit l Channel.action = l.max_inflight_bytes_per_peer - l.control_reserved_bytes_per_peer
byte_limit l Channel.bulk = l.max_inflight_bytes_per_peer - l.control_reserved_bytes_per_peer

unfoldable pub reserve : Parcel → ℕ → ℕ → Step (Unit {0})
unfolding node
reserve p bytes copies = do
  n ← node p.destination
  ensure n.active (TransportError.disconnected p.destination)
  s ← get
  let queued = length (of_channel p.channel n.incoming) + of_channel p.channel n.delayed_counts in
      (do
        count ← within (queued + copies) s.limits.max_queued_parcels_per_peer
        ensure (not (ltb s.limits.max_queued_parcels_per_peer count))
            (TransportError.queue_full p.channel s.limits.max_queued_parcels_per_peer)
        added ← within (bytes * copies) s.limits.max_inflight_bytes_per_peer
        total ← within (n.queued_bytes + added) s.limits.max_inflight_bytes_per_peer
        ensure (not (ltb (byte_limit s.limits p.channel) total))
            (TransportError.byte_limit total (byte_limit s.limits p.channel)))

abbrev pub join_queue : Bool → TransportEvent → List TransportEvent → List TransportEvent
join_queue true event queue = event ∷ queue
join_queue false event queue = queue ++ event ∷ []

unfoldable pub enqueue : Parcel → ℕ → Bool → Step (Unit {0})
unfolding node put_node
enqueue p bytes front = do
  n ← node p.destination
  total ← plus n.queued_bytes bytes
  put_node p.destination (record n {
    queued_bytes = total;
    incoming =
        with_channel p.channel
          (join_queue front (TransportEvent.incoming p) (of_channel p.channel n.incoming))
          n.incoming;
  })

-- A delayed parcel reaches its destination's queue.
unfoldable pub release_item : Delayed → Step (Unit {0})
unfolding node put_node
release_item item = do
  n ← node item.destination
  count ← minus (of_channel item.parcel.channel n.delayed_counts) 1
  put_node item.destination (record n {
    delayed_counts = with_channel item.parcel.channel count n.delayed_counts;
    incoming =
        with_channel item.parcel.channel
          (of_channel item.parcel.channel n.incoming ++ TransportEvent.incoming item.parcel ∷ [])
          n.incoming;
  })

-- A delayed parcel is dropped, and its destination's account no longer has it.
unfoldable pub cancel_item : LocalityId → Delayed → Step (Unit {0})
unfolding node put_node
cancel_item locality item = if eqb item.destination locality then pure tt else (do
  n ← node item.destination
  count ← minus (of_channel item.parcel.channel n.delayed_counts) 1
  bytes ← minus n.queued_bytes item.bytes
  put_node item.destination (record n {
    delayed_counts = with_channel item.parcel.channel count n.delayed_counts;
    queued_bytes = bytes;
  }))

abbrev pub sift_one : Bool → Delayed → (Delayed → Step (Unit {0})) → Step (Unit {0})
sift_one taken item take_out = if taken then take_out item else pure tt

-- The loop over the delayed parcels: `take_out` is for those that `test` picks, and the others are
-- retained, in their order.
unfoldable pub sift :
    (State → Delayed → Bool) → (Delayed → Step (Unit {0})) → List Delayed → Step (List Delayed)
sift test take_out [] = pure []
sift test take_out (item ∷ items) = do
  modify (λ s. record s { delayed = items })
  s ← get
  sift_one (test s item) item take_out
  retained ← sift test take_out items
  pure (if test s item then retained else item ∷ retained)

unfoldable pub release_delayed : Step (Unit {0})
unfolding sift release_item
release_delayed = do
  s ← get
  retained ← sift (λ t item. leb item.release_at t.tick) release_item s.delayed
  modify (λ t. record t { delayed = retained })

unfoldable pub cancel_locality : LocalityId → Step (Unit {0})
unfolding sift cancel_item
cancel_locality locality = do
  s ← get
  retained ←
      sift (λ t item. eqb item.parcel.source locality || eqb item.destination locality)
        (cancel_item locality) s.delayed
  modify (λ t. record t { delayed = retained })
