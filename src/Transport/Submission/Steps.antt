-- ===== src/Transport/Submission/Steps.antt =====
-- crates/hataori-runtime-foundation/src/transport.rs: sequences of calls by the threads that share the
-- accounts.
use hataori_rs.Prelude.{
  ℕ, ◌+◌, ◌-◌, ◌^◌, ◌≤◌, ◌<◌, ◌≡◌, sym, ◌∙◌, ap, Bool, true, false, List, [], ◌∷◌, ◌++◌, ok, err,
  if◌then◌else◌, sum_of, arith, subst,
}
use hataori_rs.Protocol.Ids.{Channel}
use hataori_rs.Protocol.Limits.{ProtocolLimits, IsValid}
use hataori_rs.Transport.{TransportError}
use hataori_rs.Transport.Submission.{
  SubmissionState, SendPermit, slot, new_state, reserve, release, commit, close,
}
use hataori_rs.Transport.Submission.Reserve.{decision, decision_open}
use hataori_rs.Transport.Submission.Ledger.{
  Inv, in_slot, control_to, data_add_control, granted, new_state-Inv, reserve-held, granted-Inv,
  release-Inv,
}

-- The calls that a state sees, with the permits that are out before and after.
pub data Step (members : ℕ)
    : SubmissionState × List SendPermit → SubmissionState × List SendPermit → Type 0 where
  reserving :
      {t s : SubmissionState} {out : List SendPermit} (peer : ℕ) (channel : Channel) (n : ℕ)
      (p : SendPermit)
      → peer < members
      → t.limits.max_inflight_bytes_per_peer + n < 2 ^ 64
      → reserve peer channel n t ≡ (ok p, s)
      → Step members (t, out) (s, p ∷ out)
  refused :
      {t s : SubmissionState} {out : List SendPermit} (peer : ℕ) (channel : Channel) (n : ℕ)
      (error : TransportError)
      → peer < members
      → t.limits.max_inflight_bytes_per_peer + n < 2 ^ 64
      → reserve peer channel n t ≡ (err error, s)
      → Step members (t, out) (s, out)
  releasing :
      {t : SubmissionState} (before after : List SendPermit) (p : SendPermit)
      → p.peer < members
      → Step members
          (t, before ++ p ∷ after)
          ((release p.peer p.channel p.bytes t).1, before ++ after)
  committing :
      {t : SubmissionState} {out : List SendPermit} (p : SendPermit)
      → Step members (t, out) (commit p t, out)
  closing : {t : SubmissionState} {out : List SendPermit} → Step members (t, out) (close t, out)

-- Any number of steps.
pub data Reaches (members : ℕ) (start : SubmissionState × List SendPermit)
    : SubmissionState × List SendPermit → Type 0 where
  here : Reaches members start start
  more :
      {a b : SubmissionState × List SendPermit}
      → Reaches members start a
      → Step members a b
      → Reaches members start b

module _ (members : ℕ) where
  refused_same :
      (peer : ℕ) (channel : Channel) (c b n : ℕ) (t s : SubmissionState) (error : TransportError)
      → decision peer channel c b n t ≡ (err error, s)
      → s ≡ t
  refused_same peer channel c b n t s error e = choose t.closed e
    where
      choose :
          (shut : Bool)
          → (if shut then (err TransportError.shutdown, t) else decision_open peer channel c b n t)
            ≡ (err error, s)
          → s ≡ t
      choose true e = ground arith
      choose false e = ground arith

  step-Inv :
      {a b : SubmissionState × List SendPermit}
      → Step members a b
      → Inv members a.0 a.1
      → Inv members b.0 b.1
  unfolding commit close
  step-Inv (Step.reserving {t} {s} {out} peer channel n p inside fits e) v =
      granted-Inv members peer channel n t out v inside fits p s (
        granted peer channel _ _ n t p s
          (sym (reserve-held members peer channel n t out v inside fits) ∙ e))
  step-Inv (Step.refused {t} {s} {out} peer channel n error inside fits e) v =
      subst (λ x. Inv members x out)
        (sym (
          refused_same peer channel _ _ n t s error
            (sym (reserve-held members peer channel n t out v inside fits) ∙ e)))
        v
  step-Inv (Step.releasing {t} before after p inside) v =
      release-Inv members t before after p v inside
  step-Inv (Step.committing p) v = record {
    valid = v.valid;
    small = v.small;
    wide = v.wide;
    counts = v.counts;
    bytes = v.bytes;
    room = v.room;
    weight = v.weight;
    bulk = v.bulk;
  }
  step-Inv Step.closing v = record {
    valid = v.valid;
    small = v.small;
    wide = v.wide;
    counts = v.counts;
    bytes = v.bytes;
    room = v.room;
    weight = v.weight;
    bulk = v.bulk;
  }

  reaches_kept :
      {a b : SubmissionState × List SendPermit}
      → Reaches members a b
      → Inv members a.0 a.1
      → Inv members b.0 b.1
  reaches_kept Reaches.here v = v
  reaches_kept (Reaches.more r step) v = step-Inv step (reaches_kept r v)

  -- Whatever calls the threads make on a new state with valid limits of less than 64 bits, in whatever
  -- order, for peers that there are and parcels whose bytes pass no 64 bits: the counters are those of
  -- the permits that are out, so that no subtraction wraps around, no channel of a peer holds more
  -- parcels than its limit, and no peer more bytes than its own, parcels of the action and bulk
  -- channels leaving the control channel its reserve.
  pub Reaches-Inv :
      (limits : ProtocolLimits) (t : SubmissionState) (out : List SendPermit)
      → IsValid limits
      → limits.max_queued_parcels_per_peer + 1 < 2 ^ 64
      → limits.max_inflight_bytes_per_peer < 2 ^ 64
      → Reaches members (new_state members limits, []) (t, out)
      → Inv members t out
  Reaches-Inv limits t out v small wide r =
      reaches_kept r (new_state-Inv members limits v small wide)

  -- In a state whose counters are those of the permits that are out, a control parcel is never refused
  -- for its bytes while the peer's control parcels fit the control reserve together with it: if the
  -- transport is open, the control queue has room and tickets are left, it is granted, whatever the
  -- other channels hold.
  pub reserve-control :
      (peer n : ℕ) (t : SubmissionState) (out : List SendPermit)
      → Inv members t out
      → peer < members
      → t.limits.max_inflight_bytes_per_peer + n < 2 ^ 64
      → t.closed ≡ false
      → sum_of (in_slot (slot peer Channel.control)) out < t.limits.max_queued_parcels_per_peer
      → sum_of (control_to peer) out + n ≤ t.limits.control_reserved_bytes_per_peer
      → 0 < t.next_ticket
      → t.next_ticket < 2 ^ 64 - 1
      → (reserve peer Channel.control n t).0
        ≡ ok (record { peer = peer; channel = Channel.control; bytes = n; ticket = t.next_ticket })
  reserve-control peer n t out v inside fits open_ room reserve_room some_ticket more_tickets =
      ap (λ x. x.0) (reserve-held members peer Channel.control n t out v inside fits)
      ∙ ground (arith, v.bulk peer, v.valid.room, data_add_control peer out)
