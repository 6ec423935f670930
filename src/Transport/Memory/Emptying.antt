-- ===== src/Transport/Memory/Emptying.antt =====
-- crates/hataori-runtime-foundation/src/memory.rs: the locked sections of `shutdown`.
use hataori_rs.Prelude.{
  ℕ, ◌<◌, ◌≡◌, ◌≢◌, refl, sym, ◌∙◌, false, ◌||◌, some, List, [], ◌∷◌, ok, eqb, length, length-set,
  get_elem?, get_elem?-lt, get_elem?-set_self, set, All, arith, Bool-cases, inl, inr,
}
use hataori_rs.Protocol.Ids.{Channel, LocalityId}
use hataori_rs.Protocol.Limits.{ProtocolLimits}
use hataori_rs.Transport.Memory.{Node, Delayed, State, clear}
use hataori_rs.Transport.Memory.Network.{put_node, cancel_item, cancel_locality}
use hataori_rs.Transport.Memory.Driving.{deactivate, close_node}
use hataori_rs.Transport.Memory.Ledger.{
  bytes_to, count_to, NodeOk, NodeOk-moved, NodeOk-empty, nobody, Inv, put-Holds, put-Holds-wider,
}
use hataori_rs.Transport.Memory.Releasing.{node-found}
use hataori_rs.Transport.Memory.Sifting.{cancel_item-Took, sift-Sifted}
use hataori_rs.Transport.Memory.Keeping.{All-map, All-both}

-- A parcel that is neither from the locality nor to it.
abbrev pub IsForeign : LocalityId → Delayed → Type 0
IsForeign local item = (item.parcel.source ≢ local) × (item.destination ≢ local)

differs : (a b : ℕ) → a ≢ b → eqb a b ≡ false
differs a b h = elim (Bool-cases (eqb a b)) [
  | inl same ↦ absurd (h (ground arith))
  | inr other ↦ other
]

foreign :
    (local : LocalityId) (item : Delayed)
    → (eqb item.parcel.source local || eqb item.destination local) ≡ false
    → IsForeign local item
foreign local item f = (λ e. ground (arith, f, e), λ e. ground (arith, f, e))

no_bytes :
    (local : LocalityId) (items : List Delayed)
    → All (IsForeign local) items
    → bytes_to items local ≡ 0
no_bytes local [] h = refl
no_bytes local (item ∷ items) h =
    let other : eqb item.destination local ≡ false = differs item.destination local h.0.1 in
    rw (other, no_bytes local items h.1) refl

no_count :
    (local : LocalityId) (c : Channel) (items : List Delayed)
    → All (IsForeign local) items
    → count_to items local c ≡ 0
no_count local c [] h = refl
no_count local c (item ∷ items) h =
    let other : eqb item.destination local ≡ false = differs item.destination local h.0.1 in
    rw (other, no_count local c items h.1) refl

NodeOk-clear : (l : ProtocolLimits) (n : Node) → NodeOk l 0 (λ _. 0) (clear n)
unfolding clear
NodeOk-clear l n = NodeOk-empty l (clear n) refl refl refl refl

-- The account of a node does not depend on whether it is active.
NodeOk-inactive :
    (l : ProtocolLimits) (b : ℕ) (k : Channel → ℕ) (n : Node)
    → NodeOk l b k n
    → NodeOk l b k (record n { active = false })
NodeOk-inactive l b k n v = record {
  bytes = v.bytes;
  counts = v.counts;
  sound = v.sound;
  notices = v.notices;
  queue_bound = v.queue_bound;
  byte_bound = v.byte_bound;
  system_bound = v.system_bound;
}

switched_off :
    (local : LocalityId) (s : State) (n : Node)
    → get_elem? s.nodes local ≡ some n
    → Inv s
    → Inv (record s { nodes = set s.nodes local (record n { active = false }) })
switched_off local s n here v =
    let m : Node = record n { active = false } in
    record {
      holds =
          put-Holds nobody (bytes_to s.delayed) (bytes_to s.delayed) (count_to s.delayed)
            (count_to s.delayed) s local n m v.holds here
            (NodeOk-inactive s.limits (bytes_to s.delayed local) (count_to s.delayed local) n
              (v.holds.accounts local n refl here))
            (λ i a. refl) (λ i c a. refl);
      placed = rw (length-set s.nodes local m) v.placed;
      queues_fit = v.queues_fit;
      bytes_fit = v.bytes_fit;
    }

pub deactivated :
    (local : LocalityId) (s : State)
    → Inv s
    → local < length s.nodes
    → (t : State) × (deactivate local s ≡ (ok tt, t))
      × (length t.nodes ≡ length s.nodes)
      × Inv t
      × (t.delayed ≡ s.delayed)
      × (t.tick ≡ s.tick)
unfolding deactivate put_node
deactivated local s v inside =
    let (n, here) = get_elem?-lt s.nodes local inside in
    (
      _,
      rw (node-found s local n inside here) refl,
      length-set s.nodes local _,
      switched_off local s n here v,
      refl,
      refl,
    )

-- A node that is not active and has nothing in its queues or on its account.
abbrev pub IsIdle : Node → Type 0
IsIdle n =
    (n.active ≡ false)
    × (n.system ≡ [])
    × (n.incoming.control ≡ [])
    × (n.incoming.action ≡ [])
    × (n.incoming.bulk ≡ [])
    × (n.delayed_counts.control ≡ 0)
    × (n.delayed_counts.action ≡ 0)
    × (n.delayed_counts.bulk ≡ 0)
    × (n.queued_bytes ≡ 0)

-- The network without the parcels of a locality, whose node is idle.
abbrev pub Emptied : LocalityId → State → Type 0
Emptied local t =
    Inv t
    × ((n : Node) × (get_elem? t.nodes local ≡ some n) × IsIdle n)
    × All (IsForeign local) t.delayed

clear-IsIdle : (n : Node) → n.active ≡ false → IsIdle (clear n)
unfolding clear
clear-IsIdle n e = (e, refl, refl, refl, refl, refl, refl, refl, refl)

-- A locality's section that empties its node.
abbrev pub Closed : (Delayed → Type 0) → LocalityId → State → Type 0
Closed Q local s =
    (t : State) × (close_node local s ≡ (ok tt, t))
    × (length t.nodes ≡ length s.nodes)
    × Emptied local t
    × All Q t.delayed
    × (t.tick ≡ s.tick)

pub close_node-Closed :
    (Q : Delayed → Type 0) (local : LocalityId) (s : State)
    → Inv s
    → All Q s.delayed
    → local < length s.nodes
    → Closed Q local s
unfolding close_node cancel_locality put_node
close_node-Closed Q local s v q inside =
    let (retained, nodes, delayed, e, size, h, all, fail_) =
      sift-Sifted (λ d. eqb d local)
        (λ t item. eqb item.parcel.source local || eqb item.destination local) (cancel_item local)
        (cancel_item-Took local) Q s.delayed s (λ _. 0) (λ _ _. 0)
        (record {
          accounts = λ i n counts here.
              NodeOk-moved s.limits _ _ _ _ n (omega arith) (λ c. omega arith)
                (v.holds.accounts i n refl here);
        })
        (All-both _ Q s.delayed v.placed q) in
    let others : All (IsForeign local) retained =
      All-map _ _ retained (λ item (u, _, f). foreign local item f) fail_ in
    let (m, here) = get_elem?-lt nodes local (omega (arith, size, inside)) in
    let after : Node = clear (record m { active = false }) in
    let again =
      node-found (record s { nodes = nodes; delayed = retained }) local m
        (omega (arith, size, inside)) here in
    (
      record s { nodes = set nodes local after; delayed = retained },
      rw (e, again) refl,
      length-set nodes local after ∙ size,
      (
        record {
          holds =
              put-Holds-wider (λ d. eqb d local) nobody _ (bytes_to retained) _ (count_to retained)
                (record s { nodes = nodes; delayed = retained }) local m after
                (record { accounts = h.accounts }) here
                (NodeOk-moved s.limits 0 (bytes_to retained local) (λ _. 0)
                  (count_to retained local) after (sym (no_bytes local retained others))
                  (λ c. sym (no_count local c retained others))
                  (NodeOk-clear s.limits (record m { active = false })))
                (λ i a. omega arith) (λ i c a. omega arith)
                (λ i a q. differs i local (λ e. a (sym e)));
          placed =
              rw (length-set nodes local after, size) (All-map _ _ retained (λ item p. p.0) all);
          queues_fit = v.queues_fit;
          bytes_fit = v.bytes_fit;
        },
        (
          after,
          get_elem?-set_self nodes local m after here,
          clear-IsIdle (record m { active = false }) refl,
        ),
        others,
      ),
      All-map _ _ retained (λ item p. p.1) all,
      refl,
    )
