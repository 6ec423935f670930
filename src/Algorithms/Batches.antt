-- ===== src/Algorithms/Batches.antt =====
-- crates/hataori-algorithms/src/batch.rs: the batches that `build` cuts.
use hataori_rs.Prelude.{
  ℕ, zero, suc, ◌+◌, ◌≤◌, ◌<◌, ◌≡◌, sym, ◌∙◌, ap, subst, List, [], ◌∷◌, length, get_elem?, take,
  drop, All, sum_of, arith,
}
use hataori_rs.Algorithms.Controller.{ItemReply, chunks}
use hataori_rs.Algorithms.Absorb.{covers, Segment}
use hataori_rs.Algorithms.Filling.{IsBatch}

size_take : {X : Type 0} (n : ℕ) (xs : List X) → length (take n xs) + length (drop n xs) ≡ length xs
size_take zero xs = omega arith
size_take (suc n) [] = omega arith
size_take (suc n) (x ∷ xs) = omega (arith, size_take n xs)

covers-split :
    {A : Type 0} (i start n : ℕ) (xs : List A)
    → covers i (start, xs)
      ≡ covers i (start, take n xs) + covers i (start + length (take n xs), drop n xs)
covers-split i start n xs = ground (arith, size_take n xs)

-- One item is in as many batches as in the list that they are cut from.
pub covers-chunks :
    {A : Type 0} (n size i start : ℕ) (xs : List A)
    → 0 < size
    → length xs ≤ n
    → sum_of (covers i) (chunks n size start xs) ≡ covers i (start, xs)
unfolding chunks
covers-chunks zero size i start [] p h = ground arith
covers-chunks zero size i start (x ∷ xs) p h = absurd (omega arith)
covers-chunks (suc n) size i start [] p h = ground arith
covers-chunks (suc n) zero i start (x ∷ xs) p h = absurd (omega arith)
covers-chunks (suc n) (suc k) i start (x ∷ xs) p h =
    let rest =
      covers-chunks n (suc k) i (start + length (take (suc k) (x ∷ xs))) (drop k xs) p
        (omega (arith, size_take k xs)) in
    omega (arith, rest, covers-split i start (suc k) (x ∷ xs))

module _ {A U : Type 0} (g : A → ItemReply U) (items : List A) where
  Segment-take :
      (n start : ℕ) (xs : List A)
      → Segment g items start xs
      → Segment g items start (take n xs) × Segment g items (start + length (take n xs)) (drop n xs)
  Segment-take zero start xs h = (tt, subst (λ k. Segment g items k xs) (omega arith) h)
  Segment-take (suc n) start [] h = (tt, tt)
  Segment-take (suc n) start (x ∷ xs) h =
      let (front, back) = Segment-take n (start + 1) xs h.1 in
      ((h.0, front), subst (λ k. Segment g items k (drop n xs)) (omega arith) back)

  pub chunks-IsBatch :
      (n size start : ℕ) (xs : List A)
      → Segment g items start xs
      → All (IsBatch g items) (chunks n size start xs)
  unfolding chunks
  chunks-IsBatch zero size start xs h = tt
  chunks-IsBatch (suc n) size start [] h = tt
  chunks-IsBatch (suc n) size start (x ∷ xs) h =
      let (front, back) = Segment-take size start (x ∷ xs) h in
      (front, chunks-IsBatch n size (start + length (take size (x ∷ xs))) (drop size (x ∷ xs)) back)

  pub whole-Segment :
      (k : ℕ) (xs : List A)
      → ((i : ℕ) → get_elem? xs i ≡ get_elem? items (k + i))
      → Segment g items k xs
  whole-Segment k [] h = tt
  whole-Segment k (x ∷ xs) h = (
    sym (h 0 ∙ ap (get_elem? items) (omega arith)),
    whole-Segment (k + 1) xs (λ i. h (suc i) ∙ ap (get_elem? items) (omega arith)),
  )
