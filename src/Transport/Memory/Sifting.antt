-- ===== src/Transport/Memory/Sifting.antt =====
-- crates/hataori-runtime-foundation/src/memory.rs: the loops over the parcels that are held back.
use hataori_rs.Prelude.{
  ℕ, ◌+◌, ◌≡◌, refl, sym, ◌∙◌, Bool, true, false, some, List, [], ◌∷◌, ok, eqb, leb, length,
  length-set, get_elem?, get_elem?-lt, set, All, arith, inl, inr, Bool-cases,
}
use hataori_rs.Protocol.Ids.{Channel}
use hataori_rs.Transport.Memory.{Node, Delayed, State, of_channel}
use hataori_rs.Transport.Memory.Network.{Step, put_node, release_item, cancel_item, sift}
use hataori_rs.Transport.Memory.Ledger.{
  one_at, bytes_for, count_for, bytes_to, count_to, NodeOk, NodeOk-moved, Holds, Placed, put-Holds,
}
use hataori_rs.Transport.Memory.Releasing.{
  node-found, counted-held, NodeOk-released, NodeOk-cancelled,
}

-- A step that writes at nodes only, and leaves these accounts.
abbrev pub Took : (ℕ → Bool) → (ℕ → ℕ) → (ℕ → Channel → ℕ) → Step (Unit {0}) → State → Type 0
Took skip b k step s =
    (nodes : List Node) × (step s ≡ (ok tt, record s { nodes = nodes }))
    × (length nodes ≡ length s.nodes)
    × Holds skip b k (record s { nodes = nodes })

module _ (skip : ℕ → Bool) (item : Delayed) (s : State) (b b' : ℕ → ℕ) (k k' : ℕ → Channel → ℕ)
    (v : Holds skip b k s) (placed : Placed (length s.nodes) item)
    (less_b : (i : ℕ) → b i ≡ b' i + bytes_for i item)
    (less_k : (i : ℕ) (c : Channel) → k i c ≡ k' i c + count_for i c item) where
  put-item :
      (n m : Node)
      → get_elem? s.nodes item.destination ≡ some n
      → NodeOk s.limits (b' item.destination) (k' item.destination) m
      → Holds skip b' k' (record s { nodes = set s.nodes item.destination m })
  put-item n m here new_ =
      put-Holds skip b b' k k' s item.destination n m v here new_
        (λ i apart. ground (arith, less_b i)) (λ i c apart. ground (arith, less_k i c))

  here_b : b item.destination ≡ b' item.destination + item.bytes
  here_b = ground (arith, less_b item.destination)

  here_k :
      (c : Channel) → k item.destination c ≡ k' item.destination c + one_at c item.parcel.channel
  here_k c = ground (arith, less_k item.destination c)

  pub release_item-Took : skip item.destination ≡ false → Took skip b' k' (release_item item) s
  unfolding release_item put_node
  release_item-Took counts =
      let (n, here) = get_elem?-lt s.nodes item.destination placed.0 in
      let w = v.accounts item.destination n counts here in
      let held =
        counted-held item s.limits (b item.destination) (b' item.destination) (k item.destination)
          (k' item.destination) n w placed.1 here_b here_k in
      let enough : leb 1 (of_channel item.parcel.channel n.delayed_counts) ≡ true =
        ground (arith, held) in
      (
        _,
        rw (node-found s item.destination n placed.0 here, enough) refl,
        length-set s.nodes item.destination _,
        put-item n _ here (
            NodeOk-released item s.limits (b item.destination) (b' item.destination)
              (k item.destination) (k' item.destination) n w placed.1 here_b here_k),
      )

module _ (locality : ℕ) (item : Delayed) (s : State) (b b' : ℕ → ℕ) (k k' : ℕ → Channel → ℕ)
    (v : Holds (λ d. eqb d locality) b k s) (placed : Placed (length s.nodes) item)
    (less_b : (i : ℕ) → b i ≡ b' i + bytes_for i item)
    (less_k : (i : ℕ) (c : Channel) → k i c ≡ k' i c + count_for i c item) where
  pub cancel_item-Took : Took (λ d. eqb d locality) b' k' (cancel_item locality item) s
  unfolding cancel_item put_node
  cancel_item-Took = elim (Bool-cases (eqb item.destination locality)) [
    | inl own ↦ (
      s.nodes,
      rw own refl,
      refl,
      record {
        accounts = λ i n counts here.
            NodeOk-moved s.limits (b i) (b' i) (k i) (k' i) n
              (ground (arith, less_b i, own, counts)) (λ c. ground (arith, less_k i c, own, counts))
              (v.accounts i n counts here);
      },
    )
    | inr other ↦
        let (n, here) = get_elem?-lt s.nodes item.destination placed.0 in
        let w = v.accounts item.destination n other here in
        let e_b = here_b (λ d. eqb d locality) item s b b' k k' v placed less_b less_k in
        let e_k = here_k (λ d. eqb d locality) item s b b' k k' v placed less_b less_k in
        let held =
          counted-held item s.limits (b item.destination) (b' item.destination) (k item.destination)
            (k' item.destination) n w placed.1 e_b e_k in
        let enough : leb 1 (of_channel item.parcel.channel n.delayed_counts) ≡ true =
          ground (arith, held) in
        let charged : leb item.bytes n.queued_bytes ≡ true = ground (arith, w.bytes, e_b) in
        (
          _,
          rw (other, node-found s item.destination n placed.0 here, enough, charged) refl,
          length-set s.nodes item.destination _,
          put-item (λ d. eqb d locality) item s b b' k k' v placed less_b less_k n _ here
              (NodeOk-cancelled item s.limits (b item.destination) (b' item.destination)
                (k item.destination) (k' item.destination) n w placed.1 e_b e_k),
        )
  ]

module _ (skip : ℕ → Bool) (test : State → Delayed → Bool) (take_out : Delayed → Step (Unit {0}))
    (outs : (item : Delayed) (s : State) (b b' : ℕ → ℕ) (k k' : ℕ → Channel → ℕ)
      → Holds skip b k s
      → Placed (length s.nodes) item
      → ((i : ℕ) → b i ≡ b' i + bytes_for i item)
      → ((i : ℕ) (c : Channel) → k i c ≡ k' i c + count_for i c item)
      → Took skip b' k' (take_out item) s)
    (Q : Delayed → Type 0) where
  -- The parcels that a loop retains are on the accounts, and the others are not.
  abbrev pub Sifted : (ℕ → ℕ) → (ℕ → Channel → ℕ) → List Delayed → State → Type 0
  Sifted b k items s =
      (retained : List Delayed) × (nodes : List Node) × (delayed : List Delayed) × (sift test
          take_out items s
        ≡ (ok retained, record s { nodes = nodes; delayed = delayed }))
      × (length nodes ≡ length s.nodes)
      × Holds skip (λ i. b i + bytes_to retained i) (λ i c. k i c + count_to retained i c)
          (record s { nodes = nodes; delayed = delayed })
      × All (λ item. Placed (length s.nodes) item × Q item) retained
      × All (λ item. (u : State) × (u.tick ≡ s.tick) × (test u item ≡ false)) retained

  pub sift-Sifted :
      (items : List Delayed) (s : State) (b : ℕ → ℕ) (k : ℕ → Channel → ℕ)
      → Holds skip (λ i. b i + bytes_to items i) (λ i c. k i c + count_to items i c) s
      → All (λ item. Placed (length s.nodes) item × Q item) items
      → Sifted b k items s
  unfolding sift
  sift-Sifted [] s b k v placed = ([], s.nodes, s.delayed, refl, refl, v, tt, tt)
  sift-Sifted (item ∷ items) s b k v placed =
      let t : State = record s { delayed = items } in
      let w : Holds skip (λ i. b i + bytes_to (item ∷ items) i)
          (λ i c. k i c + count_to (item ∷ items) i c) t =
        record { accounts = v.accounts } in
      elim (Bool-cases (test t item)) [
        | inl taken ↦
            let (nodes, step, size, rest) =
              outs item t _ (λ i. b i + bytes_to items i) _ (λ i c. k i c + count_to items i c) w
                placed.0.0 (λ i. omega arith) (λ i c. omega arith) in
            let (retained, nodes', delayed, e, size', h, all, fail_) =
              sift-Sifted items (record t { nodes = nodes }) b k rest (rw size placed.1) in
            (
              retained,
              nodes',
              delayed,
              rw (taken, step, e) refl,
              size' ∙ size,
              h,
              rw (sym size) all,
              fail_,
            )
        | inr left ↦
            let (retained, nodes', delayed, e, size', h, all, fail_) =
              sift-Sifted items t (λ i. b i + bytes_for i item) (λ i c. k i c + count_for i c item)
                (record {
                  accounts = λ i n counts here.
                      NodeOk-moved s.limits _ _ _ _ n (omega arith) (λ c. omega arith)
                        (v.accounts i n counts here);
                })
                placed.1 in
            (
              item ∷ retained,
              nodes',
              delayed,
              rw (left, e) refl,
              size',
              record {
                accounts = λ i n counts here.
                    NodeOk-moved s.limits _ _ _ _ n (omega arith) (λ c. omega arith)
                      (h.accounts i n counts here);
              },
              (placed.0, all),
              ((t, refl, left), fail_),
            )
      ]
