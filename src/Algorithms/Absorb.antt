-- ===== src/Algorithms/Absorb.antt =====
-- crates/hataori-algorithms/src/batch.rs: the outputs against the batches that still owe a reply.
use Prim.Native.String.{String}
use hataori_rs.Prelude.{
  ℕ, ◌+◌, ◌≤◌, ◌<◌, ◌≡◌, ◌≢◌, refl, sym, ◌∙◌, subst, ◌&&◌, Option, none, some, List, [], ◌∷◌, ltb,
  leb, eqb, if◌then◌else◌, length, get_elem?, set, arith, inl, inr, Bool-cases, length-set,
  get_elem?-set_self, get_elem?-set_other, lt-get_elem?,
}
use hataori_rs.Algorithms.Controller.{ItemReply, is_first}

-- Whether a batch has the item of an index.
abbrev pub covers : {A : Type 0} → ℕ → ℕ × List A → ℕ
covers i (start, batch) = if leb start i && ltb i (start + length batch) then 1 else 0

abbrev pub Erred : ℕ → Option (ℕ × String) → Type 0
Erred i none = ⊥
Erred i (some (j, message)) = j ≤ i

abbrev pub Settled : {U : Type 0} → List (Option U) → Option (ℕ × String) → ℕ → ItemReply U → Type 0
Settled outputs first i (ItemReply.item_ok v) = get_elem? outputs i ≡ some (some v)
Settled outputs first i (ItemReply.item_err message) = Erred i first

moved :
    {U : Type 0} (outputs outputs' : List (Option U)) (first first' : Option (ℕ × String)) (i : ℕ)
    (r : ItemReply U)
    → get_elem? outputs' i ≡ get_elem? outputs i
    → (Erred i first → Erred i first')
    → Settled outputs first i r
    → Settled outputs' first' i r
moved outputs outputs' first first' i (ItemReply.item_ok v) e keep s = e ∙ s
moved outputs outputs' first first' i (ItemReply.item_err message) e keep s = keep s

module _ {A U : Type 0} (g : A → ItemReply U) (items : List A) where
  abbrev pub IsFirst : (ℕ → ℕ) → Option (ℕ × String) → Type 0
  IsFirst owed none = Unit
  IsFirst owed (some (j, message)) =
      (x : A) × (get_elem? items j ≡ some x) × (g x ≡ ItemReply.item_err message) × (owed j ≡ 0)

  -- `owed i` batches still owe the item of index `i`; all others are in the outputs or counted in
  -- the first error.
  pub record Tracks (owed : ℕ → ℕ) (outputs : List (Option U)) (first : Option (ℕ × String))
      : Type 0 where
    pub sized : length outputs ≡ length items
    pub once : (i : ℕ) → owed i ≤ 1
    pub open_ : (i : ℕ) → i < length items → 0 < owed i → get_elem? outputs i ≡ some none
    pub settled :
        (i : ℕ) (x : A) → get_elem? items i ≡ some x → owed i ≡ 0 → Settled outputs first i (g x)
    pub lowest : IsFirst owed first

  -- A batch has the items that stand at its place.
  abbrev pub Segment : ℕ → List A → Type 0
  Segment start [] = Unit
  Segment start (x ∷ batch) = (get_elem? items start ≡ some x) × Segment (start + 1) batch

  module _ (owed owed' : ℕ → ℕ) (index : ℕ) (x : A) (outputs : List (Option U))
      (first : Option (ℕ × String)) (v : Tracks owed outputs first)
      (here : get_elem? items index ≡ some x)
      (less : (i : ℕ) → owed i ≡ owed' i + (if eqb index i then 1 else 0)) where
    owed_here : owed' index ≡ 0
    owed_here = ground (arith, less index, v.once index)

    owed_other : (i : ℕ) → index ≢ i → owed i ≡ owed' i
    owed_other i ne = ground (arith, less i)

    still-IsFirst : (o : Option (ℕ × String)) → IsFirst owed o → IsFirst owed' o
    still-IsFirst none h = tt
    still-IsFirst (some (j, message)) (y, at_, bad, paid) = (y, at_, bad, omega (arith, less j))

    pub kept_value :
        (u : U) → g x ≡ ItemReply.item_ok u → Tracks owed' (set outputs index (some u)) first
    kept_value u good = record {
      sized = length-set outputs index (some u) ∙ v.sized;
      once = λ i. omega (arith, v.once i, less i);
      open_ = λ i inside more.
          let apart : index ≢ i =
            λ e. (let q = owed_here in omega (arith, subst (λ k. owed' k ≡ 0) e q)) in
          get_elem?-set_other outputs index i (some u) apart
          ∙ v.open_ i inside (omega (arith, less i));
      settled = λ i y at_ paid. elim (Bool-cases (eqb index i)) [
        | inl same ↦
            let there : index ≡ i = ground arith in
            let again : g y ≡ ItemReply.item_ok u = cc in
            subst (Settled (set outputs index (some u)) first i) (sym again) (
              subst (λ k. get_elem? (set outputs index (some u)) k ≡ some (some u)) there
                (get_elem?-set_self outputs index none (some u) due))
        | inr other ↦
            let apart : index ≢ i = λ e. ground arith in
            moved outputs (set outputs index (some u)) first first i (g y)
              (get_elem?-set_other outputs index i (some u) apart) (λ h. h)
              (v.settled i y at_ (omega (arith, paid, owed_other i apart)))
      ];
      lowest = still-IsFirst first v.lowest;
    }
      where
        due : get_elem? outputs index ≡ some none
        due = v.open_ index (lt-get_elem? items index x here) (ground (arith, less index))

    pub kept_error :
        (message : String) (first' : Option (ℕ × String))
        → g x ≡ ItemReply.item_err message
        → first' ≡ (if is_first index first then some (index, message) else first)
        → Tracks owed' outputs first'
    kept_error message first' bad e = record {
      sized = v.sized;
      once = λ i. omega (arith, v.once i, less i);
      open_ = λ i inside more. v.open_ i inside (omega (arith, less i));
      settled = λ i y at_ paid. elim (Bool-cases (eqb index i)) [
        | inl same ↦
            let there : index ≡ i = ground arith in
            let again : g y ≡ ItemReply.item_err message = cc in
            subst (Settled outputs first' i) (sym again) (reached i there first e)
        | inr other ↦
            let apart : index ≢ i = λ e. ground arith in
            moved outputs outputs first first' i (g y) refl (lower i first e)
              (v.settled i y at_ (omega (arith, paid, owed_other i apart)))
      ];
      lowest = found first e (still-IsFirst first v.lowest);
    }
      where
        reached :
            (i : ℕ)
            → index ≡ i
            → (o : Option (ℕ × String))
            → first' ≡ (if is_first index o then some (index, message) else o)
            → Erred i first'
        reached i there none e = rw e (omega arith)
        reached i there (some (old, text)) e = elim (Bool-cases (ltb index old)) [
          | inl before ↦ rw e (rw before (omega arith))
          | inr after ↦ rw e (rw after (ground arith))
        ]

        lower :
            (i : ℕ) (o : Option (ℕ × String))
            → first' ≡ (if is_first index o then some (index, message) else o)
            → Erred i o
            → Erred i first'
        lower i none e h = absurd h
        lower i (some (old, text)) e h = elim (Bool-cases (ltb index old)) [
          | inl before ↦ rw e (rw before (ground arith))
          | inr after ↦ rw e (rw after h)
        ]

        found :
            (o : Option (ℕ × String))
            → first' ≡ (if is_first index o then some (index, message) else o)
            → IsFirst owed' o
            → IsFirst owed' first'
        found none e h = rw e (x, here, bad, owed_here)
        found (some (old, text)) e h = elim (Bool-cases (ltb index old)) [
          | inl before ↦ rw e (rw before (x, here, bad, owed_here))
          | inr after ↦ rw e (rw after h)
        ]
