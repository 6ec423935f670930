-- ===== src/Runtime/Dedup/Replay.antt =====
-- crates/hataori-runtime/src/dedup.rs: what a repeated request is answered.
use hataori_rs.Prelude.{
  ℕ, ◌+◌, ◌^◌, ◌<◌, ◌≡◌, refl, true, false, Bool, ◌&&◌, leb, Option, none, some, [], ok, err, eqb,
  if◌then◌else◌, arith, inl, inr, Bool-cases, Option-cases, ap, sym, ◌∙◌, subst,
}
use hataori_rs.Prelude.Assoc.{lookup, insert, lookup-insert_self}
use hataori_rs.Protocol.Ids.{ActionId, DomainId, RequestId}
use hataori_rs.Protocol.Frames.{total_len}
use hataori_rs.Runtime.Message.{RuntimeMessage, RuntimeMessageKind, request_key}
use hataori_rs.Runtime.Errors.{RuntimeError}
use hataori_rs.Runtime.Dedup.Table.{
  DedupState, DedupDisposition, DedupTable, is_expired, same_call, disposition, begin_at, begin,
  expire,
}
use hataori_rs.Runtime.Dedup.Complete.{is_kept, store_answer, complete, payload_size}
use hataori_rs.Runtime.Dedup.Invariant.{Inv, begin-Inv, complete-Inv}
use hataori_rs.Runtime.Dedup.Expiry.{lookup-expire}
use hataori_rs.Runtime.Dedup.Weighing.{payload_size-total_len}

-- The answer to a repeated call of an entry that has not expired.
begin_stored :
    (request : RequestId) (action : ActionId) (domain : DomainId) (now : ℕ) (t : DedupTable)
    (state : DedupState)
    → Inv t
    → lookup request t.entries ≡ some state
    → is_expired now state ≡ false
    → same_call state action domain ≡ true
    → (begin request action domain now t).0 ≡ ok (disposition request state)
unfolding begin begin_at
begin_stored request action domain now t state v e live same =
    let found : lookup request (expire now t).entries ≡ some state =
      lookup-expire now request t v.unique ∙ rw e (rw live refl) in
    rw found (rw same refl)

-- What the answer to a message is repeated as: itself, without a deadline, if its payload is kept;
-- a redirect lets the call wait.
unfoldable pub answered : RuntimeMessage → Bool → DedupDisposition
answered message false = DedupDisposition.unavailable (record message {
  kind = RuntimeMessageKind.duplicate_result_unavailable;
  deadline_ms = 0;
  payload = [];
})
answered message true = elim message.kind [
  | RuntimeMessageKind.moved ↦ DedupDisposition.running
  | _ ↦ DedupDisposition.replay (record message { deadline_ms = 0 })
]

stored_state : RuntimeMessage → Bool → ℕ → ℕ → DedupState
stored_state message kept n expires_at =
    if kept
    then DedupState.completed message.action message.domain (some (message.kind, message.payload)) n
        expires_at
    else DedupState.completed message.action message.domain none 0 expires_at

store_answer-stored :
    (message : RuntimeMessage) (n now : ℕ) (t : DedupTable)
    → lookup message.request (store_answer message n now t).entries
      ≡ some (stored_state message (is_kept t n) n (now + t.ttl))
unfolding store_answer stored_state
store_answer-stored message n now t = elim (Bool-cases (is_kept t n)) [
  | inl kept ↦ rw kept (lookup-insert_self message.request _ t.entries)
  | inr lost ↦ rw lost (lookup-insert_self message.request _ t.entries)
]

disposition-answered :
    (message : RuntimeMessage) (kept : Bool) (n expires_at : ℕ)
    → disposition message.request (stored_state message kept n expires_at) ≡ answered message kept
unfolding disposition answered stored_state
disposition-answered message true n expires_at = ground arith
disposition-answered message false n expires_at = refl

completed_lem :
    (message : RuntimeMessage) (now : ℕ) (t s : DedupTable)
    → complete message now t ≡ (ok tt, s)
    → (n : ℕ) × (payload_size 0 message.payload ≡ some n) × (s ≡ store_answer message n now t)
unfolding complete
completed_lem message now t s e = elim (Option-cases (payload_size 0 message.payload)) [
  | inl over ↦ absurd (ground arith)
  | inr (n, size) ↦ (n, size, ground arith)
]

stored_live :
    (message : RuntimeMessage) (kept : Bool) (n expires_at now : ℕ)
    → now < expires_at
    → (is_expired now (stored_state message kept n expires_at) ≡ false)
      × (same_call (stored_state message kept n expires_at) message.action message.domain ≡ true)
unfolding stored_state
stored_live message true n expires_at now h = (ground arith, ground arith)
stored_live message false n expires_at now h = (ground arith, ground arith)

-- With a byte limit of 64 bits, the tests of a payload are the limit on the counter.
is_kept-limit :
    (t : DedupTable) (n : ℕ)
    → t.max_bytes < 2 ^ 64
    → is_kept t n ≡ leb (t.retained_bytes + n) t.max_bytes
is_kept-limit t n fits = ground (arith, fits)

-- In a well-formed table with a byte limit of 64 bits, until an answer that was stored expires, a
-- repetition of its call gets it again, without a deadline, if the counter of retained bytes and the
-- bytes of its payload were together within the limit, and is told that it is unavailable if not; a
-- redirect that was kept is not repeated but lets the call wait.
pub begin-complete :
    (message : RuntimeMessage) (now later : ℕ) (t s : DedupTable)
    → Inv t
    → t.max_bytes < 2 ^ 64
    → complete message now t ≡ (ok tt, s)
    → later < now + t.ttl
    → (begin message.request message.action message.domain later s).0
      ≡ ok (answered message (leb (t.retained_bytes + total_len message.payload) t.max_bytes))
begin-complete message now later t s v fits done soon =
    let (n, size, same) = completed_lem message now t s done in
    let whole : n ≡ total_len message.payload =
      omega (arith, payload_size-total_len 0 message.payload size) in
    let state = stored_state message (is_kept t n) n (now + t.ttl) in
    let (live, same_one) = stored_live message (is_kept t n) n (now + t.ttl) later soon in
    begin_stored message.request message.action message.domain later s state
      (subst Inv (ap (λ x. x.1) done) (complete-Inv message now t v))
      (subst (λ x. lookup message.request x.entries ≡ some state) (sym same)
        (store_answer-stored message n now t))
      live same_one
    ∙ ap ok (disposition-answered message (is_kept t n) n (now + t.ttl))
    ∙ ap (λ k. ok (answered message k)) (is_kept-limit t n fits)
    ∙ ap (λ k. ok (answered message (leb (t.retained_bytes + k) t.max_bytes))) whole

-- A stored entry of another action or domain refuses the call.
begin_refused :
    (request : RequestId) (action : ActionId) (domain : DomainId) (now : ℕ) (t : DedupTable)
    (state : DedupState)
    → Inv t
    → lookup request t.entries ≡ some state
    → is_expired now state ≡ false
    → same_call state action domain ≡ false
    → (begin request action domain now t).0
      ≡ err (RuntimeError.protocol "duplicate request changed action or domain")
unfolding begin begin_at
begin_refused request action domain now t state v e live other =
    let found : lookup request (expire now t).entries ≡ some state =
      lookup-expire now request t v.unique ∙ rw e (rw live refl) in
    rw found (rw other refl)

begun_at :
    (request : RequestId) (action : ActionId) (domain : DomainId) (o : Option DedupState)
    (u s : DedupTable)
    → begin_at request action domain o u ≡ (ok DedupDisposition.new, s)
    → s.entries ≡ insert request (DedupState.running action domain false) u.entries
unfolding begin_at disposition
begun_at request action domain none u s e = ground arith
begun_at request action domain (some (DedupState.running a d c)) u s e = ground arith
begun_at request action domain (some (DedupState.completed a d none b x)) u s e = ground arith
begun_at request action domain (some (DedupState.completed a d (some (kind, p)) b x)) u s e =
    ground arith
begun_at request action domain (some (DedupState.cancelled a d x)) u s e = ground arith

begun :
    (request : RequestId) (action : ActionId) (domain : DomainId) (now : ℕ) (t s : DedupTable)
    → begin request action domain now t ≡ (ok DedupDisposition.new, s)
    → lookup request s.entries ≡ some (DedupState.running action domain false)
unfolding begin
begun request action domain now t s e =
    let entries = begun_at request action domain _ (expire now t) s e in
    rw entries (lookup-insert_self request _ (expire now t).entries)

-- A call that a well-formed table has just begun as new is not begun again by the next call of
-- `begin`, whatever the time: a repetition is told that it is running, and a request of its id for
-- another action or domain is refused.
pub begin_twice :
    (request : RequestId) (action again_action : ActionId) (domain again_domain : DomainId)
    (now later : ℕ) (t s : DedupTable)
    → Inv t
    → begin request action domain now t ≡ (ok DedupDisposition.new, s)
    → (begin request again_action again_domain later s).0 ≡ (
        if eqb action again_action && eqb domain again_domain
        then ok DedupDisposition.running
        else err (RuntimeError.protocol "duplicate request changed action or domain"))
unfolding disposition
begin_twice request action again_action domain again_domain now later t s v e =
    let found = begun request action domain now t s e in
    let w : Inv s = subst Inv (ap (λ x. x.1) e) (begin-Inv request action domain now t v) in
    elim (Bool-cases (eqb action again_action && eqb domain again_domain)) [
      | inl same ↦
          rw same (begin_stored request again_action again_domain later s _ w found refl same)
      | inr other ↦
          rw other (begin_refused request again_action again_domain later s _ w found refl other)
    ]
