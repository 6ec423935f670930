-- ===== src/Algorithms/Rounds.antt =====
-- crates/hataori-algorithms/src/batch.rs: what a poll gives.
use Prim.Native.String.{String}
use hataori_rs.Prelude.{
  ℕ, zero, suc, ◌^◌, ◌≤◌, ◌<◌, ◌≡◌, refl, sym, ◌∙◌, subst, Bool, true, false, ◌&&◌, List, [], ◌∷◌,
  Option, none, some, Result, ok, err, panic, is_empty, length, arith, inl, inr, Bool-cases,
}
use hataori_rs.Prelude.Action.{Action, continue}
use hataori_rs.Runtime.Errors.{RuntimeError}
use hataori_rs.Algorithms.{AlgorithmError}
use hataori_rs.Algorithms.Controller.{
  BatchAction, ItemReply, Polled, PmapFuture, ControllerStats, scan, fill, rounds, finish_with,
}
use hataori_rs.Algorithms.Absorb.{Tracks}
use hataori_rs.Algorithms.Expected.{map_items, all_paid, first_paid}
use hataori_rs.Algorithms.Filling.{Leads, Leads-map, Serves, Inv, owed, left, Filled, fill_from-Inv}
use hataori_rs.Algorithms.Scanning.{scan-Inv}

pub Leads-then :
    {S E X Y : Type 0} (Q : E → Type 0) (P : X → S → Type 0) (P' : Y → S → Type 0)
    (f : X → Action S E Y) (r : Result E X × S)
    → Leads Q P r
    → ((x : X) (s : S) → P x s → Leads Q P' (f x s))
    → Leads Q P' (continue f r.0 r.1)
Leads-then Q P P' f (ok x, s) l next = next x s l
Leads-then Q P P' f (err e, s) l next = l
Leads-then Q P P' f (panic, s) l next = l

pub none_left : {X : Type 0} (xs : List X) → is_empty xs ≡ true → xs ≡ []
none_left [] e = refl
none_left (x ∷ xs) e = absurd (ground arith)

some_left : {X : Type 0} (xs : List X) → is_empty xs ≡ false → 0 < length xs
some_left [] e = absurd (ground arith)
some_left (x ∷ xs) e = omega arith

and_false :
    {X Y : Type 0} (xs : List X) (ys : List Y)
    → xs ≡ []
    → (is_empty xs && is_empty ys) ≡ is_empty ys
and_false xs ys e = rw e refl

pub and_true : (a b : Bool) → (a && b) ≡ true → (a ≡ true) × (b ≡ true)
and_true a b e = ground arith

module _ {A U : Type 0} (g : A → ItemReply U) (items : List A) where
  -- The errors of a controller whose batches are served: those of the runtime, and the first error of
  -- the map.
  abbrev pub Reported : AlgorithmError → Type 0
  Reported (AlgorithmError.runtime e) = Unit
  Reported (AlgorithmError.callback i message) =
      map_items g 0 items ≡ err (AlgorithmError.callback i message)
  Reported (AlgorithmError.invalid_options message) = ⊥
  Reported (AlgorithmError.input_shape message) = ⊥
  Reported (AlgorithmError.protocol message) = ⊥

  module _ {W F : Type 0} (action_of : F → ℕ × List A) where
    -- What `n` rounds give: the map, or a state in which a batch is in flight, or no answer yet.
    abbrev pub Gives :
        ℕ → ℕ → Option (Option (List U × ControllerStats)) → PmapFuture A U W F → Type 0
    Gives n before none s = n ≤ before
    Gives n before (some none) s = Inv g items action_of s × (0 < length s.slots)
    Gives n before (some (some (outputs, stats))) s = map_items g 0 items ≡ ok outputs

    pub finished-Reported :
        (o : Option (ℕ × String)) (s : PmapFuture A U W F)
        → s.first_error ≡ o
        → s.pending ≡ []
        → s.slots ≡ []
        → Inv g items action_of s
        → Leads Reported (λ out _. map_items g 0 items ≡ ok out.0) (finish_with o s)
    unfolding finish_with
    finished-Reported none s e e1 e2 v =
        let (outputs, collected, mapped) =
          all_paid g items (owed g items action_of s) s.outputs (λ i. rw (e1, e2) refl)
            (subst (Tracks g items (owed g items action_of s) s.outputs) e v.tracks) in
        rw collected mapped
    finished-Reported (some (i, message)) s e e1 e2 v =
        first_paid g items (owed g items action_of s) s.outputs (λ i. rw (e1, e2) refl) i message
          (subst (Tracks g items (owed g items action_of s) s.outputs) e v.tracks)

    later :
        (n fewer before : ℕ)
        → fewer < before
        → (o : Option (Option (List U × ControllerStats))) (s : PmapFuture A U W F)
        → Gives n fewer o s
        → Gives (suc n) before o s
    later n fewer before h none s k = omega arith
    later n fewer before h (some none) s k = k
    later n fewer before h (some (some out)) s k = k

    -- After a pass in which no batch replied.
    pub in_flight :
        (s u : PmapFuture A U W F)
        → Filled g items action_of s
        → u.pending ≡ s.pending
        → length u.slots ≡ length s.slots
        → (is_empty u.pending && is_empty u.slots) ≡ false
        → 0 < length u.slots
    in_flight s u (inr some_) e l more = omega (arith, l)
    in_flight s u (inl none_) e l more =
        some_left u.slots (rw (sym (and_false u.pending u.slots (e ∙ none_))) more)

    module _ (submit : BatchAction A → W → Result RuntimeError F × W)
        (poll_future : F → W → Polled F U × W) (serves : Serves g submit poll_future action_of)
        (fits : length items < 2 ^ 64) where
      pub rounds-Gives :
          (n : ℕ) (t : PmapFuture A U W F)
          → Inv g items action_of t
          → Leads Reported (Gives n (left g items action_of t)) (rounds submit poll_future n t)
      unfolding rounds fill
      rounds-Gives zero t v = omega arith
      rounds-Gives (suc n) t v =
          Leads-then Reported _ _ _ (fill submit poll_future t)
            (fill_from-Inv g items action_of submit poll_future serves Reported (λ e. tt) t.pending
              t refl v)
            λ _ s (w, same, filled).
              Leads-then Reported _ _ _ (scan submit poll_future (length s.slots) 0 false s)
                (scan-Inv g items action_of submit poll_future serves fits Reported (λ e. tt)
                  (length s.slots) 0 false s (omega arith) w)
                λ moved u (k, rest, change).
                  elim (Bool-cases (is_empty u.pending && is_empty u.slots)) [
                    | inl over ↦
                        let (e1, e2) = and_true (is_empty u.pending) (is_empty u.slots) over in
                        rw over (
                          Leads-then Reported _ _ _ (finish_with u.first_error u)
                            (finished-Reported u.first_error u refl (none_left u.pending e1)
                              (none_left u.slots e2) k)
                            λ out r mapped. mapped)
                    | inr more ↦ elim change [
                      | inl (still, size) ↦
                          rw (more, still) (k, in_flight s u filled rest size more)
                      | inr (progress, shorter) ↦
                          rw (more, progress)
                            (Leads-map Reported _ _ (rounds submit poll_future n u)
                              (later n (left g items action_of u) (left g items action_of t)
                                (rw rest (omega (arith, same))))
                              (rounds-Gives n u k))
                    ]
                  ]
