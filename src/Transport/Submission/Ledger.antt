-- ===== src/Transport/Submission/Ledger.antt =====
-- crates/hataori-runtime-foundation/src/transport.rs: the accounts against the permits that are out.
-- A step is a call by one of the threads that share the state.
use hataori_rs.Prelude.{
  ℕ, ◌+◌, ◌-◌, ◌*◌, ◌^◌, ◌≤◌, ◌<◌, ◌≡◌, refl, ◌∙◌, ap, Bool, true, false, some, List, [], ◌∷◌, ◌++◌,
  ok, err, eqb, if◌then◌else◌, get_elem?, set, sum_of, sum_of-append, arith, inl, inr, Bool-cases,
  get_elem?-set_self, get_elem?-set_other, get_elem?-replicate, subst,
}
use hataori_rs.Protocol.Ids.{Channel, channel_code}
use hataori_rs.Protocol.Limits.{ProtocolLimits, IsValid}
use hataori_rs.Transport.{TransportError}
use hataori_rs.Transport.Submission.{
  SubmissionState, SendPermit, slot, is_control, byte_limit, new_state, reserve, release,
}
use hataori_rs.Transport.Submission.Reserve.{
  charged, decision, decision_open, reserve-decision, release_lem,
}

abbrev pub in_slot : ℕ → SendPermit → ℕ
in_slot s p = if eqb (slot p.peer p.channel) s then 1 else 0

abbrev pub bytes_to : ℕ → SendPermit → ℕ
bytes_to peer p = if eqb p.peer peer then p.bytes else 0

-- The bytes of a permit that is not for the control channel, and of one that is.
abbrev pub data_to : ℕ → SendPermit → ℕ
data_to peer p = if eqb p.peer peer then (if is_control p.channel then 0 else p.bytes) else 0

abbrev pub control_to : ℕ → SendPermit → ℕ
control_to peer p = if eqb p.peer peer then (if is_control p.channel then p.bytes else 0) else 0

-- The accounts of `members` peers are those of the permits that are out.
pub record Inv (members : ℕ) (t : SubmissionState) (out : List SendPermit) : Type 0 where
  pub valid : IsValid t.limits
  pub small : t.limits.max_queued_parcels_per_peer + 1 < 2 ^ 64
  pub wide : t.limits.max_inflight_bytes_per_peer < 2 ^ 64
  pub counts : (s : ℕ) → s < members * 3 → get_elem? t.counts s ≡ some (sum_of (in_slot s) out)
  pub bytes :
      (peer : ℕ) → peer < members → get_elem? t.bytes peer ≡ some (sum_of (bytes_to peer) out)
  pub room : (s : ℕ) → sum_of (in_slot s) out ≤ t.limits.max_queued_parcels_per_peer
  pub weight : (peer : ℕ) → sum_of (bytes_to peer) out ≤ t.limits.max_inflight_bytes_per_peer
  pub bulk :
      (peer : ℕ)
      → sum_of (data_to peer) out
        ≤ t.limits.max_inflight_bytes_per_peer - t.limits.control_reserved_bytes_per_peer

pub slot_small :
    (peer members : ℕ) (channel : Channel) → peer < members → slot peer channel < members * 3
unfolding channel_code
slot_small peer members Channel.control h = omega arith
slot_small peer members Channel.action h = omega arith
slot_small peer members Channel.bulk h = omega arith

pub data_add_control :
    (peer : ℕ) (out : List SendPermit)
    → sum_of (data_to peer) out + sum_of (control_to peer) out ≡ sum_of (bytes_to peer) out
data_add_control peer [] = refl
data_add_control peer (p ∷ out) = ground (arith, data_add_control peer out)

module _ (peer : ℕ) (channel : Channel) (c b n : ℕ) (t : SubmissionState) where
  -- What a granted reservation says.
  pub record Granted (p : SendPermit) (s : SubmissionState) : Type 0 where
    pub room : c + 1 ≤ t.limits.max_queued_parcels_per_peer
    pub light : b + n ≤ byte_limit t.limits channel
    pub permit : p ≡ record { peer = peer; channel = channel; bytes = n; ticket = t.next_ticket }
    pub state : s ≡ record (charged peer channel c b n t) { next_ticket = t.next_ticket + 1 }

  Granted-open :
      (p : SendPermit) (s : SubmissionState)
      → decision_open peer channel c b n t ≡ (ok p, s)
      → Granted p s
  Granted-open p s e = record {
    room = ground arith;
    light = ground arith;
    permit = ground arith;
    state = ground arith;
  }

  pub granted :
      (p : SendPermit) (s : SubmissionState)
      → decision peer channel c b n t ≡ (ok p, s)
      → Granted p s
  granted p s e = choose t.closed e
    where
      choose :
          (shut : Bool)
          → (if shut then (err TransportError.shutdown, t) else decision_open peer channel c b n t)
            ≡ (ok p, s)
          → Granted p s
      choose true e = absurd cc
      choose false e = Granted-open p s e

module _ (members : ℕ) where
  pub new_state-Inv :
      (limits : ProtocolLimits)
      → IsValid limits
      → limits.max_queued_parcels_per_peer + 1 < 2 ^ 64
      → limits.max_inflight_bytes_per_peer < 2 ^ 64
      → Inv members (new_state members limits) []
  unfolding new_state
  new_state-Inv limits v small wide = record {
    valid = v;
    small = small;
    wide = wide;
    counts = λ s h. get_elem?-replicate (members * 3) s 0 h;
    bytes = λ peer h. get_elem?-replicate members peer 0 h;
    room = λ s. omega arith;
    weight = λ peer. omega arith;
    bulk = λ peer. omega arith;
  }

  module _ (peer : ℕ) (channel : Channel) (n : ℕ) (t : SubmissionState) (out : List SendPermit)
      (v : Inv members t out) (inside : peer < members)
      (fits : t.limits.max_inflight_bytes_per_peer + n < 2 ^ 64) where
    pub reserve-held :
        reserve peer channel n t
        ≡ decision peer channel
            (sum_of (in_slot (slot peer channel)) out)
            (sum_of (bytes_to peer) out)
            n
            t
    reserve-held =
        reserve-decision peer channel (sum_of (in_slot (slot peer channel)) out)
          (sum_of (bytes_to peer) out) n t
          (record {
            counted = v.counts (slot peer channel) (slot_small peer members channel inside);
            weighed = v.bytes peer inside;
          })
          (omega (arith, v.small, v.room (slot peer channel))) (omega (arith, v.weight peer))

    pub granted-Inv :
        (p : SendPermit) (s : SubmissionState)
        → Granted peer channel
            (sum_of (in_slot (slot peer channel)) out)
            (sum_of (bytes_to peer) out)
            n
            t
            p
            s
        → Inv members s (p ∷ out)
    granted-Inv p s g =
        rw (g.permit, g.state)
          (record {
            valid = v.valid;
            small = v.small;
            wide = v.wide;
            counts = λ s h. elim (Bool-cases (eqb (slot peer channel) s)) [
              | inl same ↦ rw same (
                  let here : slot peer channel ≡ s = ground arith in
                  subst
                    (λ i.
                      get_elem?
                        (set t.counts (slot peer channel)
                          (sum_of (in_slot (slot peer channel)) out + 1))
                        i
                      ≡ some (1 + sum_of (in_slot i) out))
                    here
                    (get_elem?-set_self t.counts (slot peer channel) _ _
                        (v.counts _ (slot_small peer members channel inside))
                      ∙ ap some (omega arith)))
              | inr other ↦ rw other (
                  get_elem?-set_other t.counts (slot peer channel) s _ (λ e. ground arith)
                  ∙ v.counts s h
                  ∙ ap some (omega arith))
            ];
            bytes = λ q h. elim (Bool-cases (eqb peer q)) [
              | inl same ↦ rw same (
                  let here : peer ≡ q = ground arith in
                  subst
                    (λ i.
                      get_elem? (set t.bytes peer (sum_of (bytes_to peer) out + n)) i
                      ≡ some (n + sum_of (bytes_to i) out))
                    here
                    (get_elem?-set_self t.bytes peer _ _ (v.bytes peer inside)
                      ∙ ap some (omega arith)))
              | inr other ↦ rw other (
                  get_elem?-set_other t.bytes peer q _ (λ e. ground arith)
                  ∙ v.bytes q h
                  ∙ ap some (omega arith))
            ];
            room = λ s. ground (arith, g.room, v.room s);
            weight = λ q. ground (arith, g.light, v.weight q, v.valid.room);
            bulk = λ q. ground (arith, g.light, v.bulk q, data_add_control q out);
          })

  -- A permit that is out is given back.
  module _ (t : SubmissionState) (before after : List SendPermit) (p : SendPermit)
      (v : Inv members t (before ++ p ∷ after)) (inside : p.peer < members) where
    without :
        (w : SendPermit → ℕ) → sum_of w (before ++ p ∷ after) ≡ sum_of w (before ++ after) + w p
    without w = omega (arith, sum_of-append w before (p ∷ after), sum_of-append w before after)

    pub release-held : release p.peer p.channel p.bytes t ≡ (
      ok tt,
      record t {
        counts =
            set t.counts
              (slot p.peer p.channel)
              (sum_of (in_slot (slot p.peer p.channel)) (before ++ after));
        bytes = set t.bytes p.peer (sum_of (bytes_to p.peer) (before ++ after));
      },
    )
    release-held =
        let s = slot p.peer p.channel in
        let own_slot : in_slot s p ≡ 1 = ground arith in
        let own_bytes : bytes_to p.peer p ≡ p.bytes = ground arith in
        let most = v.room s in
        let heavy = v.weight p.peer in
        release_lem p.peer p.channel (sum_of (in_slot s) (before ++ after))
          (sum_of (bytes_to p.peer) (before ++ after)) p.bytes t
          (v.counts s (slot_small p.peer members p.channel inside)
            ∙ ap some (omega (arith, without (in_slot s), own_slot)))
          (v.bytes p.peer inside ∙ ap some (omega (arith, without (bytes_to p.peer), own_bytes)))
          (omega (arith, without (in_slot s), own_slot, v.small))
          (omega (arith, heavy, without (bytes_to p.peer), own_bytes, v.wide))

    pub release-Inv : Inv members (release p.peer p.channel p.bytes t).1 (before ++ after)
    release-Inv = rw release-held (record {
      valid = v.valid;
      small = v.small;
      wide = v.wide;
      counts = λ s h. elim (Bool-cases (eqb (slot p.peer p.channel) s)) [
        | inl same ↦
            let here : slot p.peer p.channel ≡ s = ground arith in
            subst
              (λ i.
                get_elem?
                  (set t.counts (slot p.peer p.channel)
                    (sum_of (in_slot (slot p.peer p.channel)) (before ++ after)))
                  i
                ≡ some (sum_of (in_slot i) (before ++ after)))
              here
              (get_elem?-set_self t.counts (slot p.peer p.channel) _ _
                (v.counts _ (slot_small p.peer members p.channel inside)))
        | inr other ↦
            get_elem?-set_other t.counts (slot p.peer p.channel) s _ (λ e. ground arith)
            ∙ v.counts s h
            ∙ ap some (ground (arith, without (in_slot s)))
      ];
      bytes = λ q h. elim (Bool-cases (eqb p.peer q)) [
        | inl same ↦
            let here : p.peer ≡ q = ground arith in
            subst
              (λ i.
                get_elem? (set t.bytes p.peer (sum_of (bytes_to p.peer) (before ++ after))) i
                ≡ some (sum_of (bytes_to i) (before ++ after)))
              here (get_elem?-set_self t.bytes p.peer _ _ (v.bytes p.peer inside))
        | inr other ↦
            get_elem?-set_other t.bytes p.peer q _ (λ e. ground arith)
            ∙ v.bytes q h
            ∙ ap some (ground (arith, without (bytes_to q)))
      ];
      room = λ s. omega (arith, v.room s, without (in_slot s));
      weight = λ q. omega (arith, v.weight q, without (bytes_to q));
      bulk = λ q. omega (arith, v.bulk q, without (data_to q));
    })
