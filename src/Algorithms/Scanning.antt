-- ===== src/Algorithms/Scanning.antt =====
-- crates/hataori-algorithms/src/batch.rs: what one pass over the slots keeps.
use hataori_rs.Prelude.{
  ℕ, zero, suc, ◌+◌, ◌^◌, ◌<◌, ◌≡◌, refl, ◌∙◌, Bool, true, ◌⊎◌, List, Result, length, arith, inl,
  inr, get_elem?-lt, length-set, set,
}
use hataori_rs.Runtime.Errors.{RuntimeError}
use hataori_rs.Algorithms.{AlgorithmError}
use hataori_rs.Algorithms.Controller.{BatchAction, ItemReply, Polled, PmapFuture, scan}
use hataori_rs.Algorithms.Filling.{Leads, Leads-map, Serves, Inv}
use hataori_rs.Algorithms.Polling.{polled_cases, waiting, replied}

module _ {A U W F : Type 0} (g : A → ItemReply U) (items : List A) (action_of : F → ℕ × List A)
    (submit : BatchAction A → W → Result RuntimeError F × W) (poll_future : F → W → Polled F U × W)
    (serves : Serves g submit poll_future action_of) (fits : length items < 2 ^ 64)
    (Q : AlgorithmError → Type 0)
    (allowed : (e : RuntimeError) → Q (AlgorithmError.runtime e)) where
  -- The slots are as many as before, unless a batch has replied.
  abbrev pub After : PmapFuture A U W F → Bool → Bool → PmapFuture A U W F → Type 0
  After t p moved s =
      Inv g items action_of s
      × (s.pending ≡ t.pending)
      × (((moved ≡ p) × (length s.slots ≡ length t.slots))
          ⊎ ((moved ≡ true) × (length s.slots < length t.slots)))

  waited :
      (t u : PmapFuture A U W F) (p moved : Bool) (s : PmapFuture A U W F)
      → u.pending ≡ t.pending
      → length u.slots ≡ length t.slots
      → After u p moved s
      → After t p moved s
  waited t u p moved s e l (v, k, c) = (
    v,
    k ∙ e,
    elim c [ inl (same, n) ↦ inl (same, n ∙ l) | inr (yes_, n) ↦ inr (yes_, omega (arith, n, l)) ],
  )

  moved_on :
      (t u : PmapFuture A U W F) (p moved : Bool) (s : PmapFuture A U W F)
      → u.pending ≡ t.pending
      → length u.slots + 1 ≡ length t.slots
      → After u true moved s
      → After t p moved s
  moved_on t u p moved s e l (v, k, c) = (
    v,
    k ∙ e,
    elim c [
      | inl (same, n) ↦ inr (same, omega (arith, n, l))
      | inr (yes_, n) ↦ inr (yes_, omega (arith, n, l))
    ],
  )

  pub scan-Inv :
      (n i : ℕ) (p : Bool) (t : PmapFuture A U W F)
      → i + n ≡ length t.slots
      → Inv g items action_of t
      → Leads Q (After t p) (scan submit poll_future n i p t)
  unfolding scan
  scan-Inv zero i p t e v = (v, refl, inl (refl, refl))
  scan-Inv (suc n) i p t e v =
      let (f, here) = get_elem?-lt t.slots i (omega arith) in
      let w = (poll_future f t.world).1 in
      elim (polled_cases (poll_future f t.world).0) [
        | inl (next, waits) ↦
            let u : PmapFuture A U W F = record t { slots = set t.slots i next; world = w } in
            rw (here, waits)
              (Leads-map Q _ _ (scan submit poll_future n (i + 1) p u)
                (λ m s. waited t u p m s refl (length-set t.slots i next))
                (scan-Inv n (i + 1) p u (omega (arith, length-set t.slots i next)) (
                  waiting g items action_of submit poll_future serves fits Q allowed t i f next w v
                    here (serves.waits f next t.world waits))))
        | inr (inl (x, fails)) ↦ rw (here, fails) (allowed x)
        | inr (inr (r, done)) ↦
            let (start, body) = serves.replies f t.world r done in
            let (u, taken, kept, rest, shorter) =
              replied g items action_of submit poll_future serves fits Q allowed t i f w v here in
            rw (here, done, start, body, taken)
              (Leads-map Q _ _ (scan submit poll_future n i true u)
                (λ m s. moved_on t u p m s rest shorter) (scan-Inv n i true u (omega arith) kept))
      ]
