-- ===== src/Transport/Memory/Flushing.antt =====
-- crates/hataori-runtime-foundation/src/memory.rs: `flush` of a driver, with other threads' steps between
-- its rounds.
use hataori_rs.Prelude.{
  ℕ, ◌+◌, ◌^◌, ◌≤◌, ◌<◌, ◌≡◌, ◌≢◌, ◌⊎◌, refl, sym, ◌∙◌, true, false, List, [], ◌∷◌, ok, err, eqb,
  leb, length, All, arith, inl, inr, Bool-cases,
}
use hataori_rs.Protocol.Ids.{LocalityId}
use hataori_rs.Transport.{TransportError}
use hataori_rs.Transport.Memory.{Delayed, State}
use hataori_rs.Transport.Memory.Driving.{from_local}
use hataori_rs.Transport.Memory.Waiting.{NetworkStep, caller, network_steps, flush}
use hataori_rs.Transport.Memory.Ledger.{Inv}
use hataori_rs.Transport.Memory.Keeping.{All-unit, All-map}
use hataori_rs.Transport.Memory.Stepping.{Allows, round_kept, network_steps-Goes, network_steps-Inv}

abbrev pub timed_out : TransportError
timed_out = TransportError.timeout "memory flush"

-- The steps are of localities that there are.
abbrev pub AreCalled : ℕ → List NetworkStep → Type 0
AreCalled localities steps = All (λ x. caller x < localities) steps

-- A flush ends, with a success or a timeout, and keeps the accounts.
pub flush-Inv :
    (waits : List (List NetworkStep)) (local : LocalityId) (s : State)
    → Inv s
    → All (AreCalled (length s.nodes)) waits
    → (t : State) × ((flush waits local s ≡ (ok tt, t))
        ⊎ (flush waits local s ≡ (err timed_out, t)))
      × (length t.nodes ≡ length s.nodes)
      × Inv t
unfolding flush
flush-Inv [] local s v own =
    let (t, e, size, _, w, _, _) = round_kept (λ _. Unit {0}) local s v (All-unit s.delayed) in
    elim (Bool-cases (from_local local t.delayed)) [
      | inl some_ ↦ (t, inr (rw (e, some_) refl), size, w)
      | inr none_ ↦ (t, inl (rw (e, none_) refl), size, w)
    ]
flush-Inv (others ∷ waits) local s v own =
    let (t, e, size, _, w, _, _) = round_kept (λ _. Unit {0}) local s v (All-unit s.delayed) in
    elim (Bool-cases (from_local local t.delayed)) [
      | inl some_ ↦
          let (x, size') = network_steps-Inv others t (rw size own.0) w in
          let (u, end, size'', h) =
            flush-Inv waits local (network_steps others t) x (rw (size', size) own.1) in
          (
            u,
            elim end [
              | inl good ↦ inl (rw (e, some_, good) refl)
              | inr bad ↦ inr (rw (e, some_, bad) refl)
            ],
            size'' ∙ size' ∙ size,
            h,
          )
      | inr none_ ↦ (t, inl (rw (e, none_) refl), size, w)
    ]

-- A parcel of the locality is held back to the time `bound` at most.
abbrev pub DueBy : LocalityId → ℕ → Delayed → Type 0
DueBy local bound item = item.parcel.source ≡ local → item.release_at ≤ bound

-- A step of a locality that there is, and no send of the one that flushes.
abbrev pub StandsBack : ℕ → LocalityId → NetworkStep → Type 0
StandsBack localities local (NetworkStep.send sender p) = (sender < localities) × (sender ≢ local)
StandsBack localities local (NetworkStep.make_progress d max_events) = d.local_id < localities
StandsBack localities local (NetworkStep.round other) = other < localities
StandsBack localities local (NetworkStep.turn_off other) = other < localities
StandsBack localities local (NetworkStep.close other) = other < localities

caller-StandsBack :
    (n : ℕ) (local : LocalityId) (x : NetworkStep) → StandsBack n local x → caller x < n
caller-StandsBack n local (NetworkStep.send sender p) h = h.0
caller-StandsBack n local (NetworkStep.make_progress d max_events) h = h
caller-StandsBack n local (NetworkStep.round other) h = h
caller-StandsBack n local (NetworkStep.turn_off other) h = h
caller-StandsBack n local (NetworkStep.close other) h = h

Allows-StandsBack :
    (n : ℕ) (local : LocalityId) (bound : ℕ) (x : NetworkStep)
    → StandsBack n local x
    → Allows (DueBy local bound) x
Allows-StandsBack n local bound (NetworkStep.send sender p) h =
    λ item from own. absurd (h.1 (sym from ∙ own))
Allows-StandsBack n local bound (NetworkStep.make_progress d max_events) h = tt
Allows-StandsBack n local bound (NetworkStep.round other) h = tt
Allows-StandsBack n local bound (NetworkStep.turn_off other) h = tt
Allows-StandsBack n local bound (NetworkStep.close other) h = tt

abbrev pub IsFrom : LocalityId → Delayed → Type 0
IsFrom local item = item.parcel.source ≡ local

from_local-false :
    (local : LocalityId) (items : List Delayed)
    → from_local local items ≡ false
    → All (λ item. ¬ IsFrom local item) items
from_local-false local [] over = tt
from_local-false local (item ∷ items) over = elim (Bool-cases (eqb item.parcel.source local)) [
  | inl own ↦ absurd (let e : from_local local (item ∷ items) ≡ true = rw own refl in cc)
  | inr other ↦ (
    λ e. ground (arith, other, e),
    from_local-false local items (
        let e : from_local local (item ∷ items) ≡ from_local local items = rw other refl in
        sym e ∙ over),
  )
]

none_waits :
    (local : LocalityId) (bound tick : ℕ) (items : List Delayed)
    → bound ≤ tick
    → All (DueBy local bound) items
    → All (λ item. tick < item.release_at) items
    → from_local local items ≡ false
none_waits local bound tick [] h due late = refl
none_waits local bound tick (item ∷ items) h due late =
    elim (Bool-cases (eqb item.parcel.source local)) [
      | inl own ↦ absurd (omega (arith, due.0 (ground arith), late.0))
      | inr other ↦ rw (other, none_waits local bound tick items h due.1 late.1) refl
    ]

-- A flush that succeeds, when no parcel of the locality is held back.
abbrev pub Flushed : List (List NetworkStep) → LocalityId → State → Type 0
Flushed waits local s =
    (t : State) × (flush waits local s ≡ (ok tt, t))
    × All (λ item. ¬ IsFrom local item) t.delayed
    × Inv t

-- While the accounts hold, and whatever steps other threads take between its rounds, of localities that
-- there are and but for sends of the one that flushes: a flush succeeds if the last of that locality's
-- parcels that are held back is due within the rounds that it has. No parcel of the locality is held
-- back when it ends.
pub flush_due :
    (waits : List (List NetworkStep)) (local : LocalityId) (bound : ℕ) (s : State)
    → Inv s
    → All (DueBy local bound) s.delayed
    → All (All (StandsBack (length s.nodes) local)) waits
    → bound ≤ s.tick + length waits + 1
    → bound < 2 ^ 64
    → Flushed waits local s
unfolding flush
flush_due [] local bound s v due apart soon small =
    let (t, e, _, time, w, q, late) = round_kept (DueBy local bound) local s v due in
    let over = none_waits local bound t.tick t.delayed (omega (arith, time)) q late in
    (t, rw (e, over) refl, from_local-false local t.delayed over, w)
flush_due (others ∷ waits) local bound s v due apart soon small =
    let (t, e, size, time, w, q, late) = round_kept (DueBy local bound) local s v due in
    elim (Bool-cases (from_local local t.delayed)) [
      | inr over ↦ (t, rw (e, over) refl, from_local-false local t.delayed over, w)
      | inl some_ ↦ elim (Bool-cases (leb bound t.tick)) [
        | inl past ↦
            absurd (let over = none_waits local bound t.tick t.delayed (ground arith) q late in cc)
        | inr before ↦
            let (x, size', goes) =
              network_steps-Goes (DueBy local bound) others t
                (All-map _ _ others (Allows-StandsBack (length s.nodes) local bound) apart.0)
                (rw size (All-map _ _ others (caller-StandsBack (length s.nodes) local) apart.0)) q
                w in
            let (u, good, over, h) =
              flush_due waits local bound (network_steps others t) x goes.0
                (rw (size', size) apart.1) (ground (arith, time, goes.1)) small in
            (u, rw (e, some_, good) refl, over, h)
      ]
    ]
