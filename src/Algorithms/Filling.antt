-- ===== src/Algorithms/Filling.antt =====
-- crates/hataori-algorithms/src/batch.rs: what the controller keeps while it fills its slots.
use hataori_rs.Prelude.{
  All-snoc, ℕ, ◌+◌, ◌≤◌, ◌<◌, ◌≡◌, ◌⊎◌, refl, ◌∙◌, subst, List, [], ◌∷◌, ◌++◌, map, Result, ok, err,
  panic, ltb, length, length-append, All, sum_of, sum_of-append, arith, inl, inr, Bool-cases,
  Result-cases,
}
use hataori_rs.Runtime.Errors.{RuntimeError}
use hataori_rs.Algorithms.{AlgorithmError}
use hataori_rs.Algorithms.Controller.{
  BatchAction, BatchReply, ItemReply, Polled, PmapFuture, start_batch, fill_from, larger,
}
use hataori_rs.Algorithms.Absorb.{covers, Tracks, Segment}

-- What an outcome is to be: no panic, and what is asked of a value or an error with its state.
abbrev pub Leads : {S E X : Type 0} → (E → Type 0) → (X → S → Type 0) → Result E X × S → Type 0
Leads Q P (ok x, s) = P x s
Leads Q P (err e, s) = Q e
Leads Q P (panic, s) = ⊥

pub Leads-map :
    {S E X : Type 0} (Q : E → Type 0) (P P' : X → S → Type 0) (r : Result E X × S)
    → ((x : X) (s : S) → P x s → P' x s)
    → Leads Q P r
    → Leads Q P' r
Leads-map Q P P' (ok x, s) h l = h x s l
Leads-map Q P P' (err e, s) h l = l
Leads-map Q P P' (panic, s) h l = l

-- The component that runs batches, as the controller relies on it: it starts a batch or gives an
-- error, and the reply to a batch is what its handler makes of the batch's items. `action_of` is the
-- batch that a future is the reply to.
pub record Serves {A U W F : Type 0} (g : A → ItemReply U)
    (submit : BatchAction A → W → Result RuntimeError F × W) (poll_future : F → W → Polled F U × W)
    (action_of : F → ℕ × List A) : Type 0 where
  pub submits :
      (a : BatchAction A) (w : W) (f : F) → (submit a w).0 ≡ ok f → action_of f ≡ (a.start, a.items)
  pub returns : (a : BatchAction A) (w : W) → ¬ ((submit a w).0 ≡ panic)
  pub waits :
      (f next : F) (w : W)
      → (poll_future f w).0 ≡ Polled.pending next
      → action_of next ≡ action_of f
  pub replies :
      (f : F) (w : W) (r : BatchReply U)
      → (poll_future f w).0 ≡ Polled.finished r
      → (r.start ≡ (action_of f).0) × (r.items ≡ map g (action_of f).1)

abbrev pub IsBatch : {A U : Type 0} → (A → ItemReply U) → List A → ℕ × List A → Type 0
IsBatch g items batch = Segment g items batch.0 batch.1

module _ {A U W F : Type 0} (g : A → ItemReply U) (items : List A)
    (action_of : F → ℕ × List A) where
  -- How many batches still owe an item.
  abbrev pub owed : PmapFuture A U W F → ℕ → ℕ
  owed t i = sum_of (covers i) t.pending + sum_of (λ f. covers i (action_of f)) t.slots

  pub record Inv (t : PmapFuture A U W F) : Type 0 where
    pub tracks : Tracks g items (owed t) t.outputs t.first_error
    pub pending_at : All (IsBatch g items) t.pending
    pub slots_at : All (λ f. IsBatch g items (action_of f)) t.slots
    pub bounded : length t.slots ≤ t.options.inflight_limit
    pub room : 0 < t.options.inflight_limit

  pub retrack :
      (o o' : ℕ → ℕ) (t : PmapFuture A U W F)
      → ((i : ℕ) → o i ≡ o' i)
      → Tracks g items o t.outputs t.first_error
      → Tracks g items o' t.outputs t.first_error
  retrack o o' t same v =
      let each : o ≡ o' = λ k i. same i k in
      subst (λ w. Tracks g items w t.outputs t.first_error) each v

  abbrev pub left : PmapFuture A U W F → ℕ
  left t = length t.pending + length t.slots

  -- No batch waits, unless another is in flight.
  abbrev pub Filled : PmapFuture A U W F → Type 0
  Filled t = (t.pending ≡ []) ⊎ (0 < length t.slots)

  started :
      (t s : PmapFuture A U W F) (start : ℕ) (batch : List A) (rest : List (ℕ × List A)) (f : F)
      → Inv t
      → t.pending ≡ (start, batch) ∷ rest
      → length t.slots < t.options.inflight_limit
      → action_of f ≡ (start, batch)
      → s.pending ≡ rest
      → s.slots ≡ t.slots ++ f ∷ []
      → s.options ≡ t.options
      → s.outputs ≡ t.outputs
      → s.first_error ≡ t.first_error
      → Inv s × (left s ≡ left t)
  started t s start batch rest f v e room here e1 e2 e3 e4 e5 =
      let each : (i : ℕ) → owed t i ≡ owed s i = λ i.
        rw (e, e1, e2, sum_of-append (λ f. covers i (action_of f)) t.slots (f ∷ []), here)
          (omega arith) in
      let at_ : All (IsBatch g items) ((start, batch) ∷ rest) =
        subst (All (IsBatch g items)) e v.pending_at in
      (
        record {
          tracks = rw (e4, e5) (retrack (owed t) (owed s) t each v.tracks);
          pending_at = rw e1 at_.1;
          slots_at =
              rw e2 (
                All-snoc (λ f. IsBatch g items (action_of f)) t.slots f v.slots_at (rw here at_.0));
          bounded = rw (e2, e3) (omega (arith, length-append t.slots (f ∷ [])));
          room = rw e3 v.room;
        },
        rw (e, e1, e2) (omega (arith, length-append t.slots (f ∷ []))),
      )

  module _ (submit : BatchAction A → W → Result RuntimeError F × W)
      (poll_future : F → W → Polled F U × W) (serves : Serves g submit poll_future action_of)
      (Q : AlgorithmError → Type 0)
      (allowed : (e : RuntimeError) → Q (AlgorithmError.runtime e)) where
    pub fill_from-Inv :
        (batches : List (ℕ × List A)) (t : PmapFuture A U W F)
        → t.pending ≡ batches
        → Inv t
        → Leads Q
            (λ _ s. Inv s × (left s ≡ left t) × Filled s)
            (fill_from submit poll_future batches t)
    unfolding fill_from start_batch
    fill_from-Inv [] t e v = (v, refl, inl e)
    fill_from-Inv ((start, batch) ∷ rest) t e v =
        elim (Bool-cases (ltb (length t.slots) t.options.inflight_limit)) [
          | inr full ↦ rw full (v, refl, inr (ground (arith, v.room)))
          | inl room ↦
              let a : BatchAction A = record {
                start = start;
                mode = t.options.local_mode;
                items = batch;
              } in
              elim (Result-cases (submit a t.world).0) [
                | inl (f, sent) ↦
                    let s : PmapFuture A U W F = record t {
                      pending = rest;
                      world = (submit a t.world).1;
                      slots = t.slots ++ f ∷ [];
                      stats = record t.stats {
                        peak_in_flight = larger t.stats.peak_in_flight (length (t.slots ++ f ∷ []));
                        placement_submissions = t.stats.placement_submissions + 1;
                      };
                    } in
                    let (w, same) =
                      started t s start batch rest f v e (ground arith)
                        (serves.submits a t.world f sent) refl refl refl refl refl in
                    rw (room, sent)
                      (Leads-map Q _ _ (fill_from submit poll_future rest s)
                        (λ x r (k, l, filled). (k, l ∙ same, filled)) (fill_from-Inv rest s refl w))
                | inr (inl (x, fails)) ↦ rw (room, fails) (allowed x)
                | inr (inr bad) ↦ absurd (serves.returns a t.world bad)
              ]
        ]
