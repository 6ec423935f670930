-- ===== src/Algorithms/Slots.antt =====
-- crates/hataori-algorithms/src/batch.rs: `swap_remove` and writes in the list of slots.
use hataori_rs.Prelude.{
  ℕ, zero, suc, ◌+◌, ◌≡◌, refl, ap, subst, List, [], ◌∷◌, some, length, get_elem?, set, All, sum_of,
  arith,
}
use hataori_rs.Algorithms.Controller.{init, last, swap_remove}

module _ {X : Type 0} where
  sum_of-init :
      (w : X → ℕ) (x : X) (xs : List X)
      → sum_of w (init (x ∷ xs)) + w (last x xs) ≡ sum_of w (x ∷ xs)
  sum_of-init w x [] = omega arith
  sum_of-init w x (y ∷ xs) = omega (arith, sum_of-init w y xs)

  pub sum_of-set :
      (w : X → ℕ) (xs : List X) (i : ℕ) (a b : X)
      → get_elem? xs i ≡ some a
      → sum_of w (set xs i b) + w a ≡ sum_of w xs + w b
  sum_of-set w [] i a b e = absurd cc
  sum_of-set w (x ∷ xs) zero a b e = ground arith
  sum_of-set w (x ∷ xs) (suc i) a b e = omega (arith, sum_of-set w xs i a b e)

  All-init : (P : X → Type 0) (xs : List X) → All P xs → All P (init xs)
  All-init P [] h = tt
  All-init P (x ∷ []) h = tt
  All-init P (x ∷ y ∷ xs) h = (h.0, All-init P (y ∷ xs) h.1)

  All-last : (P : X → Type 0) (x : X) (xs : List X) → P x → All P xs → P (last x xs)
  All-last P x [] p h = p
  All-last P x (y ∷ xs) p h = All-last P y xs h.0 h.1

  pub All-set : (P : X → Type 0) (xs : List X) (i : ℕ) (b : X) → All P xs → P b → All P (set xs i b)
  All-set P [] i b h p = tt
  All-set P (x ∷ xs) zero b h p = (p, h.1)
  All-set P (x ∷ xs) (suc i) b h p = (h.0, All-set P xs i b h.1 p)

  pub All-get :
      (P : X → Type 0) (xs : List X) (i : ℕ) (a : X) → All P xs → get_elem? xs i ≡ some a → P a
  All-get P [] i a h e = absurd cc
  All-get P (x ∷ xs) zero a h e = let same : x ≡ a = ground arith in subst P same h.0
  All-get P (x ∷ xs) (suc i) a h e = All-get P xs i a h.1 e

  -- The last element of a list after a write is the same one, or the one written.
  last-set : (x : X) (xs : List X) (i : ℕ) → last x (set xs i (last x xs)) ≡ last x xs
  last-set x [] i = refl
  last-set x (y ∷ []) zero = refl
  last-set x (y ∷ z ∷ xs) zero = refl
  last-set x (y ∷ xs) (suc i) = last-set y xs i

  pub sum_of-swap_remove :
      (w : X → ℕ) (xs : List X) (i : ℕ) (a : X)
      → get_elem? xs i ≡ some a
      → sum_of w (swap_remove xs i) + w a ≡ sum_of w xs
  unfolding swap_remove
  sum_of-swap_remove w [] i a e = absurd cc
  sum_of-swap_remove w (x ∷ []) zero a e = ground arith
  sum_of-swap_remove w (x ∷ y ∷ xs) zero a e =
      let same : x ≡ a = ground arith in
      omega (arith, sum_of-init w (last y xs) (y ∷ xs), ap w same)
  sum_of-swap_remove w (x ∷ xs) (suc i) a e =
      let kept = sum_of-init w x (set xs i (last x xs)) in
      omega (arith, kept, ap w (last-set x xs i), sum_of-set w xs i a (last x xs) e)

  pub All-swap_remove : (P : X → Type 0) (xs : List X) (i : ℕ) → All P xs → All P (swap_remove xs i)
  unfolding swap_remove
  All-swap_remove P [] i h = tt
  All-swap_remove P (x ∷ xs) i h =
      All-init P (set (x ∷ xs) i (last x xs))
        (All-set P (x ∷ xs) i (last x xs) h (All-last P x xs h.0 h.1))

  length-sum : (xs : List X) → length xs ≡ sum_of (λ _. 1) xs
  length-sum [] = refl
  length-sum (x ∷ xs) = omega (arith, length-sum xs)

  pub length-swap_remove :
      (xs : List X) (i : ℕ) (a : X)
      → get_elem? xs i ≡ some a
      → length (swap_remove xs i) + 1 ≡ length xs
  length-swap_remove xs i a e =
      omega
        (arith, length-sum (swap_remove xs i), length-sum xs, sum_of-swap_remove (λ _. 1) xs i a e)
