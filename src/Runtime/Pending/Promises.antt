-- ===== src/Runtime/Pending/Promises.antt =====
-- crates/hataori-runtime/src/pending.rs: `Promise`. What its mutex guards and the flag `done` are one
-- state that the methods pass along; a waker is named by a number.
use hataori_rs.Prelude.{
  ℕ, Bool, true, false, not, ◌&&◌, Option, none, some, List, [], ◌∷◌, ◌++◌, ◌≡◌, refl,
  if◌then◌else◌,
}

module _ {R : Type 0} where
  abbrev pub is_none : Option R → Bool
  is_none none = true
  is_none (some r) = false

abbrev pub woken : Option ℕ → List ℕ
woken none = []
woken (some waker) = waker ∷ []

pub record Promise (R : Type 0) : Type 0 where
  pub result : Option R
  pub waker : Option ℕ
  pub done : Bool

pub data Call (R : Type 0) : Type 0 where
  completing : R → Call R
  polling : ℕ → Call R

module _ {R : Type 0} where
  unfoldable pub new_promise : Promise R
  new_promise = record { result = none; waker = none; done = false }

  -- The promise after it, and the wakers that it wakes.
  unfoldable pub complete : R → Promise R → Promise R × List ℕ
  complete value p =
      if is_none p.result && not p.done
      then (record { result = some value; waker = none; done = true }, woken p.waker)
      else (p, [])

  -- `none` is `Poll::Pending`.
  unfoldable pub poll : ℕ → Promise R → Option R × Promise R
  poll waker p = elim p.result [
    | some value ↦ (some value, record p { result = none })
    | none ↦ (none, record p { waker = some waker })
  ]

  -- The results that the polls of a sequence of calls give, and the wakers that it wakes.
  abbrev given : Option R → List R × List ℕ → List R × List ℕ
  given none (results, wakers) = (results, wakers)
  given (some value) (results, wakers) = (value ∷ results, wakers)

  unfoldable pub outcome : List (Call R) → Promise R → List R × List ℕ
  unfolding complete poll
  outcome [] p = ([], [])
  outcome (completing value ∷ calls) p =
      let rest = outcome calls (complete value p).0 in (rest.0, (complete value p).1 ++ rest.1)
  outcome (polling waker ∷ calls) p = given (poll waker p).0 (outcome calls (poll waker p).1)

  abbrev has_poll : List (Call R) → Bool
  has_poll [] = false
  has_poll (completing value ∷ calls) = has_poll calls
  has_poll (polling waker ∷ calls) = true

  -- What a sequence of calls should give: the first value completed, to the first poll after it,
  -- and a wake for the last poll before it.
  abbrev pub promised : Option ℕ → List (Call R) → List R × List ℕ
  promised waiting [] = ([], [])
  promised waiting (polling waker ∷ calls) = promised (some waker) calls
  promised waiting (completing value ∷ calls) =
      (if has_poll calls then value ∷ [] else [], woken waiting)

  outcome-spent :
      (calls : List (Call R)) (waker : Option ℕ)
      → outcome calls (record { result = none; waker = waker; done = true }) ≡ ([], [])
  unfolding outcome complete poll
  outcome-spent [] waker = refl
  outcome-spent (completing value ∷ calls) waker = rw (outcome-spent calls waker) refl
  outcome-spent (polling next ∷ calls) waker = rw (outcome-spent calls (some next)) refl

  outcome-ready :
      (calls : List (Call R)) (value : R)
      → outcome calls (record { result = some value; waker = none; done = true })
        ≡ (if has_poll calls then value ∷ [] else [], [])
  unfolding outcome complete poll
  outcome-ready [] value = refl
  outcome-ready (completing other ∷ calls) value = rw (outcome-ready calls value) refl
  outcome-ready (polling next ∷ calls) value = rw (outcome-spent calls none) refl

  outcome-waiting :
      (calls : List (Call R)) (waker : Option ℕ)
      → outcome calls (record { result = none; waker = waker; done = false }) ≡ promised waker calls
  unfolding outcome complete poll
  outcome-waiting [] waker = refl
  outcome-waiting (completing value ∷ calls) none = rw (outcome-ready calls value) refl
  outcome-waiting (completing value ∷ calls) (some waker) = rw (outcome-ready calls value) refl
  outcome-waiting (polling next ∷ calls) waker = rw (outcome-waiting calls (some next)) refl

  -- Whatever calls a new promise gets, in whatever order: the first value completed is given to the
  -- first poll after it and to no other, later values are dropped, and the waker of the last poll
  -- before it, if any, is woken once.
  pub outcome-promised : (calls : List (Call R)) → outcome calls new_promise ≡ promised none calls
  unfolding new_promise
  outcome-promised calls = outcome-waiting calls none
