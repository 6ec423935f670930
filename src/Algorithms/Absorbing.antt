-- ===== src/Algorithms/Absorbing.antt =====
-- crates/hataori-algorithms/src/batch.rs: what a whole reply does to the outputs.
use Prim.Native.String.{String}
use hataori_rs.Prelude.{
  ℕ, ◌+◌, ◌^◌, ◌<◌, ◌≡◌, refl, subst, true, ◌⊎◌, inl, inr, Option, none, some, List, [], ◌∷◌, map,
  ok, ltb, eqb, if◌then◌else◌, length, get_elem?, set, arith, lt-get_elem?, Bool-cases,
}
use hataori_rs.Algorithms.Controller.{ItemReply, PmapFuture, absorb_item, absorb, is_first}
use hataori_rs.Algorithms.Absorb.{covers, Tracks, Segment, kept_value, kept_error}

reply_cases :
    {U : Type 0} (r : ItemReply U)
    → ((v : U) × (r ≡ ItemReply.item_ok v)) ⊎ ((m : String) × (r ≡ ItemReply.item_err m))
reply_cases (ItemReply.item_ok v) = inl (v, refl)
reply_cases (ItemReply.item_err m) = inr (m, refl)

covers-cons :
    {A : Type 0} (i start : ℕ) (x : A) (batch : List A)
    → covers i (start, x ∷ batch) ≡ covers i (start + 1, batch) + (if eqb start i then 1 else 0)
covers-cons i start x batch = ground arith

module _ {A U W F : Type 0} (g : A → ItemReply U) (items : List A)
    (fits : length items < 2 ^ 64) where
  -- The reply to a batch that is owed is taken in whole, and pays for the batch's items.
  pub absorb-Tracks :
      (owed owed' : ℕ → ℕ) (start : ℕ) (batch : List A) (t : PmapFuture A U W F)
      → Tracks g items owed t.outputs t.first_error
      → Segment g items start batch
      → ((i : ℕ) → owed i ≡ owed' i + covers i (start, batch))
      → (outputs : List (Option U)) × (first : Option (ℕ × String)) × (absorb start (map g batch) t
          ≡ (ok tt, record t { outputs = outputs; first_error = first }))
        × Tracks g items owed' outputs first
  unfolding absorb absorb_item
  absorb-Tracks owed owed' start [] t v s less =
      let each : (i : ℕ) → owed i ≡ owed' i = λ i. ground (arith, less i) in
      let same : owed ≡ owed' = λ k i. each i k in
      (t.outputs, t.first_error, refl, subst (λ w. Tracks g items w t.outputs t.first_error) same v)
  absorb-Tracks owed owed' start (x ∷ batch) t v s less =
      let inside : start < length items = lt-get_elem? items start x s.0 in
      let small : ltb start (2 ^ 64) ≡ true = ground arith in
      let owed_mid : ℕ → ℕ = λ i. owed' i + covers i (start + 1, batch) in
      let less_mid : (i : ℕ) → owed i ≡ owed_mid i + (if eqb start i then 1 else 0) =
        λ i. omega (arith, less i, covers-cons i start x batch) in
      elim (reply_cases (g x)) [
        | inl (u, good) ↦
            let due : get_elem? t.outputs start ≡ some none =
              v.open_ start inside (ground (arith, less_mid start)) in
            let t' : PmapFuture A U W F = record t { outputs = set t.outputs start (some u) } in
            let (outputs, first, e, w) =
              absorb-Tracks owed_mid owed' (start + 1) batch t'
                (kept_value g items owed owed_mid start x t.outputs t.first_error v s.0 less_mid u
                  good)
                s.1 (λ i. refl) in
            (outputs, first, rw (good, small, due, e) refl, w)
        | inr (m, bad) ↦ elim (Bool-cases (is_first start t.first_error)) [
          | inl before ↦
              let t' : PmapFuture A U W F = record t { first_error = some (start, m) } in
              let (outputs, first, e, w) =
                absorb-Tracks owed_mid owed' (start + 1) batch t'
                  (kept_error g items owed owed_mid start x t.outputs t.first_error v s.0 less_mid m
                    (some (start, m)) bad (rw before refl))
                  s.1 (λ i. refl) in
              (outputs, first, rw (bad, small, before, e) refl, w)
          | inr after ↦
              let (outputs, first, e, w) =
                absorb-Tracks owed_mid owed' (start + 1) batch t
                  (kept_error g items owed owed_mid start x t.outputs t.first_error v s.0 less_mid m
                    t.first_error bad (rw after refl))
                  s.1 (λ i. refl) in
              (outputs, first, rw (bad, small, after, e) refl, w)
        ]
      ]
