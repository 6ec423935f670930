-- ===== src/Transport/Memory/Keeping.antt =====
-- crates/hataori-runtime-foundation/src/memory.rs: what the driver's methods keep.
use hataori_rs.Prelude.{
  ℕ, ◌≤◌, ◌<◌, ◌≡◌, refl, ◌∙◌, false, List, [], ◌∷◌, ok, leb, length, get_elem?-lt, All, arith, err,
  true, Bool-cases, inl, inr,
}
use hataori_rs.Transport.{TransportEvent, TransportError}
use hataori_rs.Transport.Memory.Delivering.{Safely, Goes, Anything}
use hataori_rs.Transport.Memory.{Node, Delayed, State}
use hataori_rs.Transport.Memory.Network.{release_item, release_delayed}
use hataori_rs.Transport.Memory.Driving.{MemoryDriver, saturating, progress}
use hataori_rs.Transport.Memory.Ledger.{bytes_to, count_to, NodeOk-moved, Placed, nobody, Inv}
use hataori_rs.Transport.Memory.Releasing.{node-found}
use hataori_rs.Transport.Memory.Sifting.{release_item-Took, sift-Sifted}
use hataori_rs.Transport.Memory.Draining.{drain-Drained}

pub All-map :
    {X : Type 0} (P P' : X → Type 0) (xs : List X) → ((x : X) → P x → P' x) → All P xs → All P' xs
All-map P P' [] h a = tt
All-map P P' (x ∷ xs) h a = (h x a.0, All-map P P' xs h a.1)

pub All-both :
    {X : Type 0} (P P' : X → Type 0) (xs : List X) → All P xs → All P' xs → All (λ x. P x × P' x) xs
All-both P P' [] a b = tt
All-both P P' (x ∷ xs) a b = ((a.0, b.0), All-both P P' xs a.1 b.1)

-- The delayed parcels that are due are in their queues, and the others are as they were.
abbrev pub Released : (Delayed → Type 0) → State → Type 0
Released Q s =
    (delayed : List Delayed) × (nodes : List Node) × (release_delayed s
      ≡ (ok tt, record s { nodes = nodes; delayed = delayed }))
    × (length nodes ≡ length s.nodes)
    × Inv (record s { nodes = nodes; delayed = delayed })
    × All Q delayed
    × All (λ item. s.tick < item.release_at) delayed

pub release_delayed-Released :
    (Q : Delayed → Type 0) (s : State) → Inv s → All Q s.delayed → Released Q s
unfolding release_delayed
release_delayed-Released Q s v q =
    let (retained, nodes, delayed, e, size, h, all, fail_) =
      sift-Sifted nobody (λ t item. leb item.release_at t.tick) release_item
        (λ item s b b' k k' w placed less_b less_k.
          release_item-Took nobody item s b b' k k' w placed less_b less_k refl)
        Q s.delayed s (λ _. 0) (λ _ _. 0)
        (record {
          accounts = λ i n counts here.
              NodeOk-moved s.limits _ _ _ _ n (omega arith) (λ c. omega arith)
                (v.holds.accounts i n counts here);
        })
        (All-both (Placed (length s.nodes)) Q s.delayed v.placed q) in
    (
      retained,
      nodes,
      rw e refl,
      size,
      record {
        holds = record {
          accounts = λ i n counts here.
              NodeOk-moved s.limits _ _ _ _ n (omega arith) (λ c. omega arith)
                (h.accounts i n counts here);
        };
        placed = rw size (All-map _ _ retained (λ item p. p.0) all);
        queues_fit = v.queues_fit;
        bytes_fit = v.bytes_fit;
      },
      All-map _ _ retained (λ item p. p.1) all,
      All-map _ _ retained (λ item (u, same, late). ground (arith, same, late)) fail_,
    )

pub All-unit : (items : List Delayed) → All (λ _. Unit {0}) items
All-unit [] = tt
All-unit (x ∷ xs) = (tt, All-unit xs)

pub ticked : (s : State) (tick : ℕ) → Inv s → Inv (record s { tick = tick })
ticked s tick v = record {
  holds = record { accounts = v.holds.accounts };
  placed = v.placed;
  queues_fit = v.queues_fit;
  bytes_fit = v.bytes_fit;
}

-- No more events than asked for, and accounts that hold.
abbrev pub Progressed : MemoryDriver → ℕ → State → Type 0
Progressed d max_events s =
    (events : List TransportEvent) × (t : State) × (progress d max_events s ≡ (ok events, t))
    × (length events ≤ max_events)
    × (length t.nodes ≡ length s.nodes)
    × Inv t

-- Such a progress, which also keeps what is so of the parcels that are held back.
progress_kept :
    (Q : Delayed → Type 0) (d : MemoryDriver) (max_events : ℕ) (s : State)
    → Inv s
    → All Q s.delayed
    → d.local_id < length s.nodes
    → d.shutdown ≡ false
    → (run : Progressed d max_events s) × All Q run.1.delayed × (run.1.tick ≡ saturating s.tick 1)
unfolding progress
progress_kept Q d max_events s v q inside open_ =
    let u : State = record s { tick = saturating s.tick 1 } in
    let (delayed, nodes, e, size, w, rest, _) =
      release_delayed-Released Q u (ticked s (saturating s.tick 1) v) q in
    let r : State = record u { nodes = nodes; delayed = delayed } in
    let (m, here) = get_elem?-lt nodes d.local_id (omega (arith, size, inside)) in
    let (events, nodes', drained, size', few, h) =
      drain-Drained max_events d.local_id r (bytes_to delayed) (count_to delayed)
        (omega (arith, size, inside)) w.holds in
    (
      (
        events,
        record r { nodes = nodes' },
        rw (open_, e, node-found r d.local_id m (omega (arith, size, inside)) here, drained) refl,
        few,
        size' ∙ size,
        record {
          holds = h;
          placed = rw size' w.placed;
          queues_fit = v.queues_fit;
          bytes_fit = v.bytes_fit;
        },
      ),
      rest,
      refl,
    )

pub progress-Safely :
    (Q : Delayed → Type 0) (d : MemoryDriver) (max_events : ℕ) (s : State)
    → Inv s
    → All Q s.delayed
    → d.local_id < length s.nodes
    → Safely (length s.nodes) (Goes Q s.tick) Anything (progress d max_events s)
unfolding progress
progress-Safely Q d max_events s v q inside = elim (Bool-cases d.shutdown) [
  | inl closed ↦
      (let e : progress d max_events s ≡ (err TransportError.shutdown, s) =
          stopped d max_events s closed in
        rw e (v, refl, (q, omega arith)))
  | inr open_ ↦
      let ((events, t, e, _, size, w), rest, time) =
        progress_kept Q d max_events s v q inside open_ in
      rw e (w, size, (rest, omega (arith, time)), tt)
]
  where
    stopped :
        (d : MemoryDriver) (n : ℕ) (s : State)
        → d.shutdown ≡ true
        → progress d n s ≡ (err TransportError.shutdown, s)
    stopped d n s e = rw e refl

-- While the accounts hold, `progress` of a driver that is not shut down neither fails nor panics: it
-- gives no more events than asked for, and the accounts hold after it.
pub progress-Inv :
    (d : MemoryDriver) (max_events : ℕ) (s : State)
    → Inv s
    → d.local_id < length s.nodes
    → d.shutdown ≡ false
    → Progressed d max_events s
progress-Inv d max_events s v inside open_ =
    (progress_kept (λ _. Unit {0}) d max_events s v (All-unit s.delayed) inside open_).0
