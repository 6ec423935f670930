-- ===== src/Runtime/Dedup/Weighing.antt =====
-- crates/hataori-runtime/src/dedup.rs: the sizes that the entries record against the payloads that they
-- hold.
use hataori_rs.Prelude.{
  ℕ, ◌&&◌, ◌||◌, not, ◌+◌, ◌≡◌, refl, false, Option, none, some, List, [], ◌∷◌, ltb, leb, eqb,
  length, arith, inl, inr, Bool-cases, Option-cases, Result-cases,
}
use hataori_rs.Prelude.Assoc.{
  lookup, total, AllValues, AtValue, AllValues-lookup, AllValues-insert, AllValues-remove,
}
use hataori_rs.Protocol.Ids.{ActionId, DomainId, RequestId}
use hataori_rs.Protocol.Frames.{total_len}
use hataori_rs.Runtime.Message.{RuntimeMessage, RuntimeMessageKind, Segments, request_key}
use hataori_rs.Runtime.Dedup.Table.{
  DedupState, DedupTable, retained, cancel_entry, same_call, remove_all, expire, expired_keys,
  begin_at, begin, release_at, release_redirect, cancel_at, cancel,
}
use hataori_rs.Runtime.Dedup.Complete.{is_kept, store_answer, complete, payload_size, awaited}

-- The bytes of the payload that an entry holds.
abbrev pub held : DedupState → ℕ
held (DedupState.running a d c) = 0
held (DedupState.completed a d none b e) = 0
held (DedupState.completed a d (some (kind, payload)) b e) = total_len payload
held (DedupState.cancelled a d e) = 0

abbrev pub Weighed : DedupState → Type 0
Weighed state = retained state ≡ held state

abbrev pub AllWeighed : DedupTable → Type 0
AllWeighed t = AllValues Weighed t.entries

pub payload_size-total_len :
    (total : ℕ) (payload : Segments) {n : ℕ}
    → payload_size total payload ≡ some n
    → n ≡ total + total_len payload
unfolding payload_size
payload_size-total_len total [] e = ground arith
payload_size-total_len total (segment ∷ payload) {n} e =
    ground (arith, payload_size-total_len (total + length segment) payload {n = n})

-- Entries that record their payloads' sizes hold as many bytes as they record.
pub total-held :
    (m : List (RequestId × DedupState)) → AllValues Weighed m → total held m ≡ total retained m
total-held [] h = refl
total-held ((request, state) ∷ m) h = omega (arith, h.0, total-held m h.1)

remove_all-Weighed :
    (requests : List RequestId) (t : DedupTable) → AllWeighed t → AllWeighed (remove_all requests t)
unfolding remove_all
remove_all-Weighed [] t w = w
remove_all-Weighed (request ∷ requests) t w =
    remove_all-Weighed requests _ (AllValues-remove Weighed request t.entries w)

pub expire-Weighed : (now : ℕ) (t : DedupTable) → AllWeighed t → AllWeighed (expire now t)
unfolding expire
expire-Weighed now t w = remove_all-Weighed (expired_keys now t.entries) t w

begin_at-Weighed :
    (request : RequestId) (action : ActionId) (domain : DomainId) (o : Option DedupState)
    (t : DedupTable)
    → AllWeighed t
    → AllWeighed (begin_at request action domain o t).1
unfolding begin_at
begin_at-Weighed request action domain (some state) t w =
    elim (Bool-cases (same_call state action domain)) [
      | inl same ↦ rw same w
      | inr other ↦ rw other w
    ]
begin_at-Weighed request action domain none t w =
    elim (Bool-cases (leb t.max_entries (length t.entries))) [
      | inl full ↦ rw full w
      | inr free ↦ rw free (
          AllValues-insert Weighed request (DedupState.running action domain false) t.entries refl
            w)
    ]

pub begin-Weighed :
    (request : RequestId) (action : ActionId) (domain : DomainId) (now : ℕ) (t : DedupTable)
    → AllWeighed t
    → AllWeighed (begin request action domain now t).1
unfolding begin
begin-Weighed request action domain now t w =
    begin_at-Weighed request action domain _ (expire now t) (expire-Weighed now t w)

release_at-Weighed :
    (request : RequestId) (action : ActionId) (domain : DomainId) (o : Option DedupState)
    (t : DedupTable)
    → AllWeighed t
    → AllWeighed (release_at request action domain o t).1
unfolding release_at
release_at-Weighed request action domain none t w = w
release_at-Weighed request action domain (some (DedupState.running a d c)) t w = w
release_at-Weighed request action domain
      (some (DedupState.completed a d (some (RuntimeMessageKind.moved, payload)) b e)) t w =
    elim (Bool-cases (eqb a action && eqb d domain)) [
      | inl same ↦ rw same (AllValues-remove Weighed request t.entries w)
      | inr other ↦ rw other w
    ]
release_at-Weighed request action domain
      (some (DedupState.completed a d (some (kind, payload)) b e)) t w =
    w
release_at-Weighed request action domain (some (DedupState.completed a d none b e)) t w = w
release_at-Weighed request action domain (some (DedupState.cancelled a d e)) t w = w

pub release_redirect-Weighed :
    (request : RequestId) (action : ActionId) (domain : DomainId) (t : DedupTable)
    → AllWeighed t
    → AllWeighed (release_redirect request action domain t).1
unfolding release_redirect
release_redirect-Weighed request action domain t w =
    release_at-Weighed request action domain (lookup request t.entries) t w

cancel_entry-Weighed : (state : DedupState) → Weighed state → Weighed (cancel_entry state)
cancel_entry-Weighed (DedupState.running a d c) w = w
cancel_entry-Weighed (DedupState.completed a d r b e) w = w
cancel_entry-Weighed (DedupState.cancelled a d e) w = w

cancel_at-Weighed :
    (request : RequestId) (action : ActionId) (domain : DomainId) (now : ℕ) (o : Option DedupState)
    (t : DedupTable)
    → AtValue Weighed o
    → AllWeighed t
    → AllWeighed (cancel_at request action domain now o t).1
unfolding cancel_at
cancel_at-Weighed request action domain now (some state) t here w =
    elim (Bool-cases (same_call state action domain)) [
      | inl same ↦ rw same (
          AllValues-insert Weighed request (cancel_entry state) t.entries
            (cancel_entry-Weighed state here) w)
      | inr other ↦ rw other w
    ]
cancel_at-Weighed request action domain now none t here w =
    elim (Bool-cases (ltb (length t.entries) t.max_entries)) [
      | inl free ↦ rw free (AllValues-insert Weighed request _ t.entries refl w)
      | inr full ↦ rw full w
    ]

pub cancel-Weighed :
    (request : RequestId) (action : ActionId) (domain : DomainId) (now : ℕ) (t : DedupTable)
    → AllWeighed t
    → AllWeighed (cancel request action domain now t).1
unfolding cancel
cancel-Weighed request action domain now t w =
    let later = expire-Weighed now t w in
    cancel_at-Weighed request action domain now _ (expire now t)
      (AllValues-lookup Weighed request (expire now t).entries later) later

store_answer-Weighed :
    (message : RuntimeMessage) (n now : ℕ) (t : DedupTable)
    → n ≡ total_len message.payload
    → AllWeighed t
    → AllWeighed (store_answer message n now t)
unfolding store_answer
store_answer-Weighed message n now t size w = elim (Bool-cases (is_kept t n)) [
  | inl kept ↦ rw kept (AllValues-insert Weighed message.request _ t.entries size w)
  | inr lost ↦ rw lost (AllValues-insert Weighed message.request _ t.entries refl w)
]

pub complete-Weighed :
    (message : RuntimeMessage) (now : ℕ) (t : DedupTable)
    → AllWeighed t
    → AllWeighed (complete message now t).1
unfolding complete
complete-Weighed message now t w =
    elim (Result-cases (awaited (lookup message.request t.entries))) [
      | inl (call, q) ↦
          elim (Bool-cases (not (eqb call.0 message.action) || not (eqb call.1 message.domain))) [
            | inl other ↦ rw (q, other) w
            | inr same ↦ elim (Option-cases (payload_size 0 message.payload)) [
              | inl over ↦ rw (q, same, over) w
              | inr (n, size) ↦
                  let whole : n ≡ total_len message.payload =
                    omega (arith, payload_size-total_len 0 message.payload size) in
                  rw (q, same, size) (store_answer-Weighed message n now t whole w)
            ]
          ]
      | inr (inl (x, q)) ↦ rw q w
      | inr (inr q) ↦ rw q w
    ]
