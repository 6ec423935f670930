-- ===== src/Transport/Submission/Reserve.antt =====
-- crates/hataori-runtime-foundation/src/transport.rs: what `reserve` and `release` come to.
use hataori_rs.Prelude.{
  ℕ, ◌+◌, ◌-◌, ◌^◌, ◌<◌, ◌≡◌, refl, ◌∙◌, Bool, true, false, ◌||◌, some, Result, ok, err, ltb, eqb,
  if◌then◌else◌, get_elem?, set, arith, inl, inr, Bool-cases, get_elem?-set_self, set-set, set-same,
}
use hataori_rs.Prelude.Action.{fail}
use hataori_rs.Protocol.Ids.{Channel}
use hataori_rs.Transport.{TransportError}
use hataori_rs.Transport.Submission.{
  SubmissionState, SendPermit, slot, wrap_add, wrap_sub, add_count, sub_count, add_bytes, sub_bytes,
  byte_limit, release, take_ticket, reserve_bytes, reserve_open, reserve,
}

module _ (i c : ℕ) (t : SubmissionState) where
  add_count_lem :
      get_elem? t.counts i ≡ some c
      → c + 1 < 2 ^ 64
      → add_count i t ≡ (ok (c + 1), record t { counts = set t.counts i (c + 1) })
  unfolding add_count
  add_count_lem e small =
      let whole : wrap_add c 1 ≡ c + 1 = omega arith in
      let fits : ltb (c + 1) (2 ^ 64) ≡ true = ground arith in rw (e, whole, fits) refl

  sub_count_lem :
      get_elem? t.counts i ≡ some (c + 1)
      → c + 1 < 2 ^ 64
      → sub_count i t ≡ (ok tt, record t { counts = set t.counts i c })
  unfolding sub_count
  sub_count_lem e small = let less : wrap_sub (c + 1) 1 ≡ c = omega arith in rw (e, less) refl

module _ (peer b n : ℕ) (t : SubmissionState) where
  add_bytes_lem :
      get_elem? t.bytes peer ≡ some b
      → b + n < 2 ^ 64
      → add_bytes peer n t ≡ (ok (b + n), record t { bytes = set t.bytes peer (b + n) })
  unfolding add_bytes
  add_bytes_lem e small =
      let whole : wrap_add b n ≡ b + n = omega arith in
      let fits : ltb (b + n) (2 ^ 64) ≡ true = ground arith in rw (e, whole, fits) refl

  sub_bytes_lem :
      get_elem? t.bytes peer ≡ some (b + n)
      → b + n < 2 ^ 64
      → sub_bytes peer n t ≡ (ok tt, record t { bytes = set t.bytes peer b })
  unfolding sub_bytes
  sub_bytes_lem e small = let less : wrap_sub (b + n) n ≡ b = omega arith in rw (e, less) refl

module _ (peer : ℕ) (channel : Channel) (c b n : ℕ) where
  -- The accounts of a peer with one parcel of `n` bytes more.
  abbrev pub charged : SubmissionState → SubmissionState
  charged t = record t {
    counts = set t.counts (slot peer channel) (c + 1);
    bytes = set t.bytes peer (b + n);
  }

  -- The accounts of a peer: `c` parcels on the channel and `b` bytes.
  pub record Holds (t : SubmissionState) : Type 0 where
    pub counted : get_elem? t.counts (slot peer channel) ≡ some c
    pub weighed : get_elem? t.bytes peer ≡ some b

  pub release_lem :
      (t : SubmissionState)
      → get_elem? t.counts (slot peer channel) ≡ some (c + 1)
      → get_elem? t.bytes peer ≡ some (b + n)
      → c + 1 < 2 ^ 64
      → b + n < 2 ^ 64
      → release peer channel n t ≡ (
        ok tt,
        record t { counts = set t.counts (slot peer channel) c; bytes = set t.bytes peer b },
      )
  unfolding release
  release_lem t counted weighed few small =
      rw (sub_bytes_lem peer b n t weighed small)
        (sub_count_lem (slot peer channel) c (record t { bytes = set t.bytes peer b }) counted few)

  release-charged :
      (t : SubmissionState)
      → Holds t
      → c + 1 < 2 ^ 64
      → b + n < 2 ^ 64
      → release peer channel n (charged t) ≡ (ok tt, t)
  release-charged t h few small =
      release_lem (charged t) (get_elem?-set_self t.counts (slot peer channel) c (c + 1) h.counted)
        (get_elem?-set_self t.bytes peer b (b + n) h.weighed) few small
      ∙ rw
          (
            set-set t.counts (slot peer channel) (c + 1) c,
            set-same t.counts (slot peer channel) c h.counted,
            set-set t.bytes peer (b + n) b,
            set-same t.bytes peer b h.weighed,
          )
          refl

  abbrev pub decision_open : SubmissionState → Result TransportError SendPermit × SubmissionState
  decision_open t =
      if ltb t.limits.max_queued_parcels_per_peer (c + 1)
      then (err (TransportError.queue_full channel t.limits.max_queued_parcels_per_peer), t)
      else if ltb (byte_limit t.limits channel) (b + n)
      then (err (TransportError.byte_limit (b + n) (byte_limit t.limits channel)), t)
      else if eqb t.next_ticket 0 || eqb t.next_ticket (2 ^ 64 - 1)
      then (err (TransportError.peer "send ticket overflow"), t)
      else (
        ok (record { peer = peer; channel = channel; bytes = n; ticket = t.next_ticket }),
        record (charged t) { next_ticket = t.next_ticket + 1 },
      )

  -- What a reservation comes to, without its steps.
  abbrev pub decision : SubmissionState → Result TransportError SendPermit × SubmissionState
  decision t = if t.closed then (err TransportError.shutdown, t) else decision_open t

  reserve_open-decision :
      (t : SubmissionState)
      → Holds t
      → c + 1 < 2 ^ 64
      → b + n < 2 ^ 64
      → reserve_open peer channel n t ≡ decision_open t
  unfolding reserve_open reserve_bytes take_ticket
  reserve_open-decision t h few small =
      let i = slot peer channel in
      let counted = get_elem?-set_self t.counts i c (c + 1) h.counted in
      let weighed = get_elem?-set_self t.bytes peer b (b + n) h.weighed in
      let undo = sub_count_lem i c (record t { counts = set t.counts i (c + 1) }) counted few in
      let charge =
        add_bytes_lem peer b n (record t { counts = set t.counts i (c + 1) }) h.weighed small in
      let unbyte = sub_bytes_lem peer b n (charged t) weighed small in
      let uncount =
        sub_count_lem i c (record (charged t) { bytes = set (set t.bytes peer (b + n)) peer b })
          counted few in
      let counted_again = set-set t.counts i (c + 1) c ∙ set-same t.counts i c h.counted in
      let weighed_again = set-set t.bytes peer (b + n) b ∙ set-same t.bytes peer b h.weighed in
      let back = release-charged t h few small in
      rw (add_count_lem i c t h.counted few)
        (elim (Bool-cases (ltb t.limits.max_queued_parcels_per_peer (c + 1))) [
          | inl full ↦ rw (full, undo, counted_again) refl
          | inr room ↦
              rw (room, charge)
                (elim (Bool-cases (ltb (byte_limit t.limits channel) (b + n))) [
                  | inl heavy ↦ rw (heavy, unbyte, uncount, counted_again, weighed_again) refl
                  | inr light ↦
                      rw light
                        (elim (Bool-cases (eqb t.next_ticket 0 || eqb t.next_ticket (2 ^ 64 - 1))) [
                          | inl out ↦ rw (out, back) refl
                          | inr ticket ↦ rw ticket refl
                        ])
                ])
        ])

  -- While the accounts of a peer and the new parcel pass no 64 bits, a reservation is granted exactly
  -- if the transport is open, the channel's queue has room, the bytes stay within the channel's limit
  -- and tickets are left; it then charges one parcel and its bytes, and else it changes nothing.
  pub reserve-decision :
      (t : SubmissionState)
      → Holds t
      → c + 1 < 2 ^ 64
      → b + n < 2 ^ 64
      → reserve peer channel n t ≡ decision t
  unfolding reserve
  reserve-decision t h few small = choose t.closed
    where
      choose :
          (shut : Bool)
          → (if shut then fail TransportError.shutdown else reserve_open peer channel n) t
            ≡ (if shut then (err TransportError.shutdown, t) else decision_open t)
      choose true = refl
      choose false = reserve_open-decision t h few small
