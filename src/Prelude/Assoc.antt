-- ===== src/Prelude/Assoc.antt =====
-- Maps as association lists: the `BTreeMap` and `HashMap` of the source, whose order no
-- operation modelled here depends on. A key that is bound again keeps its place.
use Prim.Native.Nat.{ℕ, ◌+◌}
use mathlib.Core.Path.{◌≡◌, refl, subst}
use mathlib.Core.Bool.{Bool, true, false, ◌||◌}
use hataori_rs.Prelude.Lists.{length}
use mathlib.Core.Option.{Option, none, some}
use mathlib.Core.Logic.{inl, inr}
use mathlib.Core.List.{List, [], ◌∷◌}
use native.Mathlib.Omega.{arith}
use hataori_rs.Prelude.Tests.{Key, ◌==◌, if◌then◌else◌, Bool-cases, same_self}

-- The sum of a weight over the values.
abbrev pub total {ℓ κ} : {K : Type ℓ} {V : Type κ} → (V → ℕ) → List (K × V) → ℕ
total w [] = 0
total w ((k, v) ∷ m) = w v + total w m

abbrev pub weight {κ} : {V : Type κ} → (V → ℕ) → Option V → ℕ
weight w none = 0
weight w (some v) = w v

abbrev pub AllValues {ℓ κ μ} : {K : Type ℓ} {V : Type κ} → (V → Type μ) → List (K × V) → Type μ
AllValues P [] = Unit {_}
AllValues P ((k, v) ∷ m) = P v × AllValues P m

abbrev pub AtValue {κ μ} : {V : Type κ} → (V → Type μ) → Option V → Type μ
AtValue P none = Unit {_}
AtValue P (some v) = P v

abbrev pub contains {ℓ} : {K : Type ℓ} ⦃key : Key K⦄ → K → List K → Bool
contains k [] = false
contains k (j ∷ keys) = (j == k) || contains k keys

module _ {ℓ κ} {K : Type ℓ} ⦃key : Key K⦄ {V : Type κ} where
  unfoldable pub lookup : K → List (K × V) → Option V
  lookup k [] = none
  lookup k ((j, v) ∷ m) = if j == k then some v else lookup k m

  unfoldable pub insert : K → V → List (K × V) → List (K × V)
  insert k v [] = (k, v) ∷ []
  insert k v ((j, u) ∷ m) = if j == k then (j, v) ∷ m else (j, u) ∷ insert k v m

  unfoldable pub remove : K → List (K × V) → List (K × V)
  remove k [] = []
  remove k ((j, u) ∷ m) = if j == k then m else (j, u) ∷ remove k m

  -- No key is bound twice.
  abbrev pub Unique : List (K × V) → Type κ
  Unique [] = Unit {_}
  Unique ((k, v) ∷ m) = (lookup k m ≡ none) × Unique m

  pub lookup-insert :
      (j k : K) (v : V) (m : List (K × V))
      → lookup j (insert k v m) ≡ (if k == j then some v else lookup j m)
  unfolding lookup insert
  lookup-insert j k v [] = refl
  lookup-insert j k v ((i, u) ∷ m) =
      ground (arith, key.same_iff i k, key.same_iff i j, key.same_iff k j, lookup-insert j k v m)

  pub lookup-insert_self : (k : K) (v : V) (m : List (K × V)) → lookup k (insert k v m) ≡ some v
  lookup-insert_self k v m = rw (lookup-insert, same_self k)

  pub insert-Unique : (k : K) (v : V) (m : List (K × V)) → Unique m → Unique (insert k v m)
  unfolding insert lookup
  insert-Unique k v [] h = (refl, tt)
  insert-Unique k v ((i, u) ∷ m) h = elim (Bool-cases (i == k)) [
    | inl eq ↦ rw eq h
    | inr ne ↦ rw ne (
      rw (lookup-insert i k v m) (ground (arith, key.same_iff i k, key.same_iff k i)),
      insert-Unique k v m h.1,
    )
  ]

  pub lookup-remove :
      (j k : K) (m : List (K × V))
      → Unique m
      → lookup j (remove k m) ≡ (if k == j then none else lookup j m)
  unfolding lookup remove
  lookup-remove j k [] h = ground arith
  lookup-remove j k ((i, u) ∷ m) h =
      ground (arith, key.same_iff i k, key.same_iff i j, key.same_iff k j, lookup-remove j k m)

  pub remove-Unique : (k : K) (m : List (K × V)) → Unique m → Unique (remove k m)
  unfolding lookup remove
  remove-Unique k [] h = tt
  remove-Unique k ((i, u) ∷ m) h = elim (Bool-cases (i == k)) [
    | inl eq ↦ rw eq (h.1)
    | inr ne ↦ rw ne (rw (lookup-remove i k m h.1) (ground arith), remove-Unique k m h.1)
  ]

  -- A rebinding exchanges the weight of the old value for that of the new one.
  pub total-insert :
      (w : V → ℕ) (k : K) (v : V) (m : List (K × V))
      → total w (insert k v m) + weight w (lookup k m) ≡ total w m + w v
  unfolding lookup insert
  total-insert w k v [] = omega arith
  total-insert w k v ((i, u) ∷ m) = ground (arith, total-insert w k v m)

  pub total-remove :
      (w : V → ℕ) (k : K) (m : List (K × V))
      → total w (remove k m) + weight w (lookup k m) ≡ total w m
  unfolding lookup remove
  total-remove w k [] = omega arith
  total-remove w k ((i, u) ∷ m) = ground (arith, total-remove w k m)

  module _ {μ} (P : V → Type μ) where
    pub AllValues-lookup : (k : K) (m : List (K × V)) → AllValues P m → AtValue P (lookup k m)
    unfolding lookup
    AllValues-lookup k [] h = tt
    AllValues-lookup k ((i, u) ∷ m) h = elim (Bool-cases (i == k)) [
      | inl eq ↦ rw eq (h.0)
      | inr ne ↦ rw ne (AllValues-lookup k m h.1)
    ]

    pub AllValues-insert :
        (k : K) (v : V) (m : List (K × V)) → P v → AllValues P m → AllValues P (insert k v m)
    unfolding insert
    AllValues-insert k v [] p h = (p, tt)
    AllValues-insert k v ((i, u) ∷ m) p h = elim (Bool-cases (i == k)) [
      | inl eq ↦ rw eq (p, h.1)
      | inr ne ↦ rw ne (h.0, AllValues-insert k v m p h.1)
    ]

    pub AllValues-remove : (k : K) (m : List (K × V)) → AllValues P m → AllValues P (remove k m)
    unfolding remove
    AllValues-remove k [] h = tt
    AllValues-remove k ((i, u) ∷ m) h = elim (Bool-cases (i == k)) [
      | inl eq ↦ rw eq (h.1)
      | inr ne ↦ rw ne (h.0, AllValues-remove k m h.1)
    ]

  -- The same key is missing.
  pub lookup-none_at :
      (j k : K) (m : List (K × V)) → (j == k) ≡ true → lookup j m ≡ none → lookup k m ≡ none
  lookup-none_at j k m same e = subst (λ i. lookup i m ≡ none) ((key.same_iff j k).0 same) e

  pub length-total : (m : List (K × V)) → length m ≡ total (λ _. 1) m
  length-total [] = refl
  length-total ((i, u) ∷ m) = omega (arith, length-total m)
