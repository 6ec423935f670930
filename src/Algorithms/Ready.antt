-- ===== src/Algorithms/Ready.antt =====
-- crates/hataori-algorithms/src/batch.rs: a map whose futures do not wait.
use hataori_rs.Prelude.{
  ℕ, zero, suc, ◌+◌, ◌^◌, ◌≤◌, ◌<◌, ◌≡◌, ◌⊎◌, refl, sym, ◌∙◌, ap, Bool, true, false, not, ◌&&◌,
  List, [], ◌∷◌, Option, none, some, Result, ok, err, panic, is_empty, length, get_elem?,
  get_elem?-lt, arith, inl, inr, Bool-cases,
}
use hataori_rs.Runtime.Errors.{RuntimeError}
use hataori_rs.Algorithms.{AlgorithmError, PmapOptions}
use hataori_rs.Algorithms.Controller.{
  BatchAction, ItemReply, Polled, PmapFuture, ControllerStats, scan, fill, fill_from, rounds, poll,
  finish_with, pmap,
}
use hataori_rs.Algorithms.Expected.{map_items}
use hataori_rs.Algorithms.Filling.{Leads, Leads-map, Serves, Inv, left, Filled, fill_from-Inv}
use hataori_rs.Algorithms.Polling.{polled_cases, replied}
use hataori_rs.Algorithms.Scanning.{After, scan-Inv}
use hataori_rs.Algorithms.Rounds.{
  Leads-then, Reported, Gives, and_true, none_left, in_flight, finished-Reported,
}
use hataori_rs.Algorithms.Running.{pmap-Inv}
pub mod Tests

module _ {A U W F : Type 0} (g : A → ItemReply U) (items : List A) where
  -- The outputs of the map.
  abbrev pub Mapped : Option (Option (List U × ControllerStats)) → PmapFuture A U W F → Type 0
  Mapped none s = ⊥
  Mapped (some none) s = ⊥
  Mapped (some (some out)) s = map_items g 0 items ≡ ok out.0

module _ {A U W F : Type 0} (g : A → ItemReply U) (items : List A) (action_of : F → ℕ × List A)
    (submit : BatchAction A → W → Result RuntimeError F × W) (poll_future : F → W → Polled F U × W)
    (serves : Serves g submit poll_future action_of) (fits : length items < 2 ^ 64)
    (ready : (f next : F) (w : W) → ¬ ((poll_future f w).0 ≡ Polled.pending next)) where
  -- A pass over slots whose futures do not wait makes progress, if there is a slot.
  scan_progress :
      (n : ℕ) (t : PmapFuture A U W F)
      → n ≡ length t.slots
      → Inv g items action_of t
      → Leads
          (Reported g items)
          (λ moved s.
            After g items action_of submit poll_future serves fits
              (Reported g items)
              (λ e. tt)
              t
              false
              moved
              s
            × ((n ≡ 0) ⊎ (moved ≡ true)))
          (scan submit poll_future n 0 false t)
  unfolding scan
  scan_progress zero t e v = ((v, refl, inl (refl, refl)), inl refl)
  scan_progress (suc n) t e v =
      let (f, here) = get_elem?-lt t.slots 0 (omega arith) in
      let w = (poll_future f t.world).1 in
      elim (polled_cases (poll_future f t.world).0) [
        | inl (next, waits) ↦ absurd (ready f next t.world waits)
        | inr (inl (x, fails)) ↦ rw (here, fails) tt
        | inr (inr (r, done)) ↦
            let (start, body) = serves.replies f t.world r done in
            let (u, taken, kept, rest, shorter) =
              replied g items action_of submit poll_future serves fits (Reported g items) (λ e. tt)
                t 0 f w v here in
            rw (here, done, start, body, taken)
              (Leads-map (Reported g items) _ _ (scan submit poll_future n 0 true u)
                (λ m s (k, e', c).
                  ((k, e' ∙ rest, inr (moved m s u c shorter)), inr (moved m s u c shorter).0))
                (scan-Inv g items action_of submit poll_future serves fits (Reported g items)
                  (λ e. tt) n 0 true u (omega arith) kept))
      ]
    where
      moved :
          (m : Bool) (s u : PmapFuture A U W F)
          → ((m ≡ true) × (length s.slots ≡ length u.slots))
            ⊎ ((m ≡ true) × (length s.slots < length u.slots))
          → length u.slots + 1 ≡ length t.slots
          → (m ≡ true) × (length s.slots < length t.slots)
      moved m s u (inl (e, l)) h = (e, omega (arith, l, h))
      moved m s u (inr (e, l)) h = (e, omega (arith, l, h))

  -- What such rounds give: the map, or no answer yet if they are too few.
  abbrev Answered : ℕ → ℕ → Option (Option (List U × ControllerStats)) → Type 0
  Answered n before none = n ≤ before
  Answered n before (some none) = ⊥
  Answered n before (some (some out)) = map_items g 0 items ≡ ok out.0

  still_later :
      (n fewer before : ℕ)
      → fewer < before
      → (o : Option (Option (List U × ControllerStats))) → Answered n fewer o
      → Answered (suc n) before o
  still_later n fewer before h none k = omega arith
  still_later n fewer before h (some none) k = k
  still_later n fewer before h (some (some out)) k = k

  rounds-Answered :
      (n : ℕ) (t : PmapFuture A U W F)
      → Inv g items action_of t
      → Leads
          (Reported g items)
          (λ o _. Answered n (left g items action_of t) o)
          (rounds submit poll_future n t)
  unfolding rounds fill
  rounds-Answered zero t v = omega arith
  rounds-Answered (suc n) t v =
      Leads-then (Reported g items) _ _ _ (fill submit poll_future t)
        (fill_from-Inv g items action_of submit poll_future serves (Reported g items) (λ e. tt)
          t.pending t refl v)
        λ _ s (w, same, filled).
          Leads-then (Reported g items) _ _ _ (scan submit poll_future (length s.slots) 0 false s)
            (scan_progress (length s.slots) s refl w)
            λ moved u ((k, rest, change), any).
              elim (Bool-cases (is_empty u.pending && is_empty u.slots)) [
                | inl over ↦
                    let (e1, e2) = and_true (is_empty u.pending) (is_empty u.slots) over in
                    rw over (
                      Leads-then (Reported g items) _ _ _ (finish_with u.first_error u)
                        (finished-Reported g items action_of u.first_error u refl
                          (none_left u.pending e1) (none_left u.slots e2) k)
                        λ out r mapped. mapped)
                | inr more ↦ elim change [
                  | inl (still, size) ↦ absurd (elim any [
                    | inl empty ↦
                        omega (
                          arith,
                          in_flight g items action_of s u filled rest size more,
                          size,
                          empty,
                        )
                    | inr progress ↦ cc
                  ])
                  | inr (progress, shorter) ↦
                      rw (more, progress)
                        (Leads-map (Reported g items) _ _ (rounds submit poll_future n u)
                          (λ o r h.
                            still_later n (left g items action_of u) (left g items action_of t)
                              (rw rest (omega (arith, same))) o h)
                          (rounds-Answered n u k))
                ]
              ]

  -- If the batches of a map from `pmap` are served as `Serves` says, its items are fewer than `2 ^ 64`,
  -- and no future waits, then the first poll ends the map: it gives the outputs of `map_items`, or fails
  -- with an error of the runtime or with the error of `map_items`.
  pub pmap-ready :
      (targets : ℕ) (options : PmapOptions) (world : W) (t : PmapFuture A U W F)
      → pmap targets options items world ≡ ok t
      → Leads (Reported g items) (Mapped g items) (poll submit poll_future t)
  unfolding poll
  pmap-ready targets options world t e =
      Leads-map (Reported g items) _ (Mapped g items)
        (rounds submit poll_future (left g items action_of t + 1) t) (λ o s h. ended o s h)
        (rounds-Answered (left g items action_of t + 1) t
          (pmap-Inv g items action_of targets options world t e))
    where
      ended :
          (o : Option (Option (List U × ControllerStats))) (s : PmapFuture A U W F)
          → Answered (left g items action_of t + 1) (left g items action_of t) o
          → Mapped g items o s
      ended none s h = omega arith
      ended (some none) s h = h
      ended (some (some out)) s h = h
