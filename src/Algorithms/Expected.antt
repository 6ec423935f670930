-- ===== src/Algorithms/Expected.antt =====
-- crates/hataori-algorithms/src/batch.rs: the map that the controller computes in batches.
use Prim.Native.String.{String}
use hataori_rs.Prelude.{
  ℕ, zero, suc, ◌+◌, ◌<◌, ◌≡◌, refl, ◌∙◌, ap, Option, none, some, List, [], ◌∷◌, Result, ok, err,
  length, get_elem?, arith,
}
use hataori_rs.Prelude.Fallible.{◌>>=◌}
use hataori_rs.Algorithms.{AlgorithmError}
use hataori_rs.Algorithms.Controller.{ItemReply, collect_outputs}
use hataori_rs.Algorithms.Absorb.{Settled, Tracks}

-- An item's value in front of the rest, or its error at its index.
abbrev prepend :
    {U : Type 0} → ℕ → ItemReply U → Result AlgorithmError (List U) → Result AlgorithmError (List U)
prepend k (ItemReply.item_ok v) rest = rest >>= λ vs. ok (v ∷ vs)
prepend k (ItemReply.item_err message) rest = err (AlgorithmError.callback k message)

module _ {A U : Type 0} (g : A → ItemReply U) where
  -- A map of one item after another, that stops at the first error: what the parallel one gives,
  -- items that were run behind an error being forgotten.
  unfoldable pub map_items : ℕ → List A → Result AlgorithmError (List U)
  map_items k [] = ok []
  map_items k (x ∷ items) = prepend k (g x) (map_items (k + 1) items)

  mapped_cons :
      (k : ℕ) (x : A) (items : List A) (v : U) (vs : List U)
      → g x ≡ ItemReply.item_ok v
      → map_items (k + 1) items ≡ ok vs
      → map_items k (x ∷ items) ≡ ok (v ∷ vs)
  unfolding map_items
  mapped_cons k x items v vs e rest = rw e (rw rest refl)

  mapped_good :
      (k : ℕ) (items : List A) (outputs : List (Option U))
      → length outputs ≡ length items
      → ((i : ℕ) (x : A) → get_elem? items i ≡ some x → Settled outputs none i (g x))
      → (vs : List U) × (collect_outputs outputs ≡ ok vs) × (map_items k items ≡ ok vs)
  unfolding collect_outputs map_items
  mapped_good k [] [] e h = ([], refl, refl)
  mapped_good k [] (o ∷ outputs) e h = absurd (omega arith)
  mapped_good k (x ∷ items) [] e h = absurd (omega arith)
  mapped_good k (x ∷ items) (o ∷ outputs) e h =
      let (vs, collected, mapped) =
        mapped_good (k + 1) items outputs (omega arith) (λ i y q. shift i (g y) (h (suc i) y q)) in
      here vs collected mapped (g x) refl (h 0 x refl)
    where
      shift :
          (i : ℕ) (r : ItemReply U)
          → Settled (o ∷ outputs) none (suc i) r
          → Settled outputs none i r
      shift i (ItemReply.item_ok v) s = s
      shift i (ItemReply.item_err m) s = s

      here :
          (vs : List U)
          → collect_outputs outputs ≡ ok vs
          → map_items (k + 1) items ≡ ok vs
          → (r : ItemReply U) → g x ≡ r
          → Settled (o ∷ outputs) none 0 r
          → (ws : List U) × (collect_outputs (o ∷ outputs) ≡ ok ws)
            × (map_items k (x ∷ items) ≡ ok ws)
      here vs collected mapped (ItemReply.item_ok v) e s =
          let found : o ≡ some v = ground arith in
          (v ∷ vs, rw found (rw collected refl), mapped_cons k x items v vs e mapped)
      here vs collected mapped (ItemReply.item_err m) e s = absurd s

  mapped_bad :
      (k j : ℕ) (items : List A) (x : A) (message : String)
      → get_elem? items j ≡ some x
      → g x ≡ ItemReply.item_err message
      → ((i : ℕ) (y : A)
          → i < j
          → get_elem? items i ≡ some y
          → (v : U) × (g y ≡ ItemReply.item_ok v))
      → map_items k items ≡ err (AlgorithmError.callback (k + j) message)
  unfolding map_items
  mapped_bad k j [] x message e bad good = absurd cc
  mapped_bad k zero (y ∷ items) x message e bad good =
      let same : g y ≡ ItemReply.item_err message = cc in
      let whole : k ≡ k + 0 = omega arith in
      rw same (ap (λ i. err (AlgorithmError.callback i message)) whole)
  mapped_bad k (suc j) (y ∷ items) x message e bad good =
      let (v, fine) = good 0 y (omega arith) refl in
      let rest =
        mapped_bad (k + 1) j items x message e bad (λ i z h q. good (suc i) z (omega arith) q) in
      let whole : k + 1 + j ≡ k + suc j = omega arith in
      rw fine (rw rest (ap (λ i. err (AlgorithmError.callback i message)) whole))

  module _ (items : List A) (owed : ℕ → ℕ) (outputs : List (Option U))
      (paid : (i : ℕ) → owed i ≡ 0) where
    pub all_paid :
        Tracks g items owed outputs none
        → (vs : List U) × (collect_outputs outputs ≡ ok vs) × (map_items 0 items ≡ ok vs)
    all_paid v = mapped_good 0 items outputs v.sized (λ i x e. v.settled i x e (paid i))

    pub first_paid :
        (j : ℕ) (message : String)
        → Tracks g items owed outputs (some (j, message))
        → map_items 0 items ≡ err (AlgorithmError.callback j message)
    first_paid j message v =
        let (x, e, bad, _) = v.lowest in
        mapped_bad 0 j items x message e bad
          (λ i y h q. before i h (g y) (v.settled i y q (paid i)))
        ∙ ap (λ i. err (AlgorithmError.callback i message)) (omega arith)
      where
        before :
            (i : ℕ)
            → i < j
            → (r : ItemReply U) → Settled outputs (some (j, message)) i r
            → (v : U) × (r ≡ ItemReply.item_ok v)
        before i h (ItemReply.item_ok u) s = (u, refl)
        before i h (ItemReply.item_err m) s = absurd (omega arith)
