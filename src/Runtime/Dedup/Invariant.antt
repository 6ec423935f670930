-- ===== src/Runtime/Dedup/Invariant.antt =====
-- crates/hataori-runtime/src/dedup.rs: the table's invariant, and that every method keeps it.
use hataori_rs.Prelude.{
  ℕ, ◌&&◌, ◌||◌, not, ◌+◌, ◌-◌, ◌≤◌, ◌<◌, ◌≡◌, refl, false, Option, none, some, List, [], ◌∷◌, ok,
  ltb, leb, eqb, length, arith, inl, inr, Bool-cases, Option-cases, Result-cases,
}
use hataori_rs.Prelude.Assoc.{
  lookup, insert, remove, total, Unique, insert-Unique, remove-Unique, total-insert, total-remove,
  length-total,
}
use hataori_rs.Protocol.Ids.{ActionId, DomainId, RequestId}
use hataori_rs.Runtime.Message.{RuntimeMessage, RuntimeMessageKind, request_key}
use hataori_rs.Runtime.Dedup.Table.{
  DedupState, DedupTable, retained, retained_at, cancel_entry, same_call, new_table, remove_all,
  expire, expired_keys, begin_at, begin, release_at, release_redirect, cancel_at, cancel,
}
use hataori_rs.Runtime.Dedup.Complete.{
  is_kept, store_answer, complete, clear, payload_size, awaited,
}

pub record Inv (t : DedupTable) : Type 0 where
  -- One entry a request.
  pub unique : Unique t.entries
  -- The counter covers the bytes that the entries hold, and is within the limit.
  pub counted : total retained t.entries ≤ t.retained_bytes
  pub bytes : t.retained_bytes ≤ t.max_bytes
  pub room : length t.entries ≤ t.max_entries

pub new_table-Inv : (max_entries max_bytes ttl : ℕ) → Inv (new_table max_entries max_bytes ttl)
unfolding new_table
new_table-Inv max_entries max_bytes ttl = record {
  unique = tt;
  counted = omega arith;
  bytes = omega arith;
  room = omega arith;
}

removed :
    (t : DedupTable) (request : RequestId)
    → Inv t
    → Inv (record t {
      entries = remove request t.entries;
      retained_bytes = t.retained_bytes - retained_at (lookup request t.entries);
    })
removed t request v = record {
  unique = remove-Unique request t.entries v.unique;
  counted = ground (arith, v.counted, total-remove retained request t.entries);
  bytes = ground (arith, v.bytes);
  room = ground (
    arith,
    v.room,
    total-remove (λ _. 1) request t.entries,
    length-total t.entries,
    length-total (remove request t.entries),
  );
}

remove_all-Inv : (requests : List RequestId) (t : DedupTable) → Inv t → Inv (remove_all requests t)
unfolding remove_all
remove_all-Inv [] t v = v
remove_all-Inv (request ∷ requests) t v = remove_all-Inv requests _ (removed t request v)

pub expire-Inv : (now : ℕ) (t : DedupTable) → Inv t → Inv (expire now t)
unfolding expire
expire-Inv now t v = remove_all-Inv (expired_keys now t.entries) t v

-- An entry is dropped and the counter stays.
forgotten :
    (t : DedupTable) (request : RequestId)
    → Inv t
    → Inv (record t { entries = remove request t.entries })
forgotten t request v = record {
  unique = remove-Unique request t.entries v.unique;
  counted = omega (arith, v.counted, total-remove retained request t.entries);
  bytes = v.bytes;
  room = omega (
    arith,
    v.room,
    total-remove (λ _. 1) request t.entries,
    length-total t.entries,
    length-total (remove request t.entries),
  );
}

-- An entry that holds as many bytes as the one whose place it takes.
bound :
    (t : DedupTable) (request : RequestId) (state : DedupState)
    → Inv t
    → retained state ≡ retained_at (lookup request t.entries)
    → (lookup request t.entries ≡ none → length t.entries < t.max_entries)
    → Inv (record t { entries = insert request state t.entries })
bound t request state v light free = record {
  unique = insert-Unique request state t.entries v.unique;
  counted = ground (arith, v.counted, total-insert retained request state t.entries);
  bytes = v.bytes;
  room = ground (
    arith,
    v.room,
    free,
    total-insert (λ _. 1) request state t.entries,
    length-total t.entries,
    length-total (insert request state t.entries),
  );
}

begin_at-Inv :
    (request : RequestId) (action : ActionId) (domain : DomainId) (o : Option DedupState)
    (t : DedupTable)
    → lookup request t.entries ≡ o
    → Inv t
    → Inv (begin_at request action domain o t).1
unfolding begin_at
begin_at-Inv request action domain (some state) t e v = ground arith
begin_at-Inv request action domain none t e v =
    elim (Bool-cases (leb t.max_entries (length t.entries))) [
      | inl full ↦
          rw full
            (record { unique = v.unique; counted = v.counted; bytes = v.bytes; room = v.room })
      | inr free ↦ rw free (
          bound t request (DedupState.running action domain false) v (ground arith)
            (λ _. ground arith))
    ]

pub begin-Inv :
    (request : RequestId) (action : ActionId) (domain : DomainId) (now : ℕ) (t : DedupTable)
    → Inv t
    → Inv (begin request action domain now t).1
unfolding begin
begin-Inv request action domain now t v =
    begin_at-Inv request action domain _ (expire now t) refl (expire-Inv now t v)

release_at-Inv :
    (request : RequestId) (action : ActionId) (domain : DomainId) (o : Option DedupState)
    (t : DedupTable)
    → Inv t
    → Inv (release_at request action domain o t).1
unfolding release_at
release_at-Inv request action domain none t v = v
release_at-Inv request action domain (some (DedupState.running a d c)) t v = v
release_at-Inv request action domain
      (some (DedupState.completed a d (some (RuntimeMessageKind.moved, payload)) b e)) t v =
    elim (Bool-cases (eqb a action && eqb d domain)) [
      | inl same ↦ rw same (forgotten t request v)
      | inr other ↦ rw other v
    ]
release_at-Inv request action domain (some (DedupState.completed a d (some (kind, payload)) b e)) t
      v =
    v
release_at-Inv request action domain (some (DedupState.completed a d none b e)) t v = v
release_at-Inv request action domain (some (DedupState.cancelled a d e)) t v = v

pub release_redirect-Inv :
    (request : RequestId) (action : ActionId) (domain : DomainId) (t : DedupTable)
    → Inv t
    → Inv (release_redirect request action domain t).1
unfolding release_redirect
release_redirect-Inv request action domain t v =
    release_at-Inv request action domain (lookup request t.entries) t v

retained-cancel_entry : (state : DedupState) → retained (cancel_entry state) ≡ retained state
retained-cancel_entry (DedupState.running a d c) = refl
retained-cancel_entry (DedupState.completed a d r b e) = refl
retained-cancel_entry (DedupState.cancelled a d e) = refl

cancel_at-Inv :
    (request : RequestId) (action : ActionId) (domain : DomainId) (now : ℕ) (o : Option DedupState)
    (t : DedupTable)
    → lookup request t.entries ≡ o
    → Inv t
    → Inv (cancel_at request action domain now o t).1
unfolding cancel_at
cancel_at-Inv request action domain now (some state) t e v =
    elim (Bool-cases (same_call state action domain)) [
      | inl same ↦ rw same (
          bound t request (cancel_entry state) v (rw e (retained-cancel_entry state))
            (λ n. ground arith))
      | inr other ↦ rw other v
    ]
cancel_at-Inv request action domain now none t e v =
    elim (Bool-cases (ltb (length t.entries) t.max_entries)) [
      | inl free ↦ rw free (bound t request _ v (rw e) (λ _. ground arith))
      | inr full ↦
          rw full
            (record { unique = v.unique; counted = v.counted; bytes = v.bytes; room = v.room })
    ]

pub cancel-Inv :
    (request : RequestId) (action : ActionId) (domain : DomainId) (now : ℕ) (t : DedupTable)
    → Inv t
    → Inv (cancel request action domain now t).1
unfolding cancel
cancel-Inv request action domain now t v =
    cancel_at-Inv request action domain now _ (expire now t) refl (expire-Inv now t v)

-- An answer takes the place of an entry that held no bytes.
store_answer-Inv :
    (message : RuntimeMessage) (n now : ℕ) (t : DedupTable) (state : DedupState)
    → lookup message.request t.entries ≡ some state
    → retained state ≡ 0
    → Inv t
    → Inv (store_answer message n now t)
unfolding store_answer
store_answer-Inv message n now t state e light v =
    let kept_state =
      DedupState.completed message.action message.domain (some (message.kind, message.payload)) n
        (now + t.ttl) in
    let lost_state = DedupState.completed message.action message.domain none 0 (now + t.ttl) in
    elim (Bool-cases (is_kept t n)) [
      | inl kept ↦ rw kept (record {
        unique = insert-Unique message.request kept_state t.entries v.unique;
        counted =
            ground (arith, v.counted, total-insert retained message.request kept_state t.entries);
        bytes = ground (arith, v.bytes);
        room = ground (
          arith,
          v.room,
          total-insert (λ _. 1) message.request kept_state t.entries,
          length-total t.entries,
          length-total (insert message.request kept_state t.entries),
        );
      })
      | inr lost ↦ rw lost (record {
        unique = insert-Unique message.request lost_state t.entries v.unique;
        counted =
            ground (arith, v.counted, total-insert retained message.request lost_state t.entries);
        bytes = ground (arith, v.bytes);
        room = ground (
          arith,
          v.room,
          total-insert (λ _. 1) message.request lost_state t.entries,
          length-total t.entries,
          length-total (insert message.request lost_state t.entries),
        );
      })
    ]

-- What a pending answer says of the entry.
awaited_light :
    (o : Option DedupState) (call : ℕ × ℕ)
    → awaited o ≡ ok call
    → (state : DedupState) × (o ≡ some state) × (retained state ≡ 0)
unfolding awaited
awaited_light none call e = cc
awaited_light (some (DedupState.running a d c)) call e = (DedupState.running a d c, refl, refl)
awaited_light (some (DedupState.completed a d r b x)) call e = cc
awaited_light (some (DedupState.cancelled a d x)) call e = (DedupState.cancelled a d x, refl, refl)

pub complete-Inv :
    (message : RuntimeMessage) (now : ℕ) (t : DedupTable) → Inv t → Inv (complete message now t).1
unfolding complete
complete-Inv message now t v = elim (Result-cases (awaited (lookup message.request t.entries))) [
  | inl (call, q) ↦
      let (state, e, light) = awaited_light _ call q in
      elim (Bool-cases (not (eqb call.0 message.action) || not (eqb call.1 message.domain))) [
        | inl other ↦ rw (q, other) v
        | inr same ↦ elim (Option-cases (payload_size 0 message.payload)) [
          | inl over ↦ rw (q, same, over) v
          | inr (n, size) ↦ rw (q, same, size) (store_answer-Inv message n now t state e light v)
        ]
      ]
  | inr (inl (x, q)) ↦ rw q v
  | inr (inr q) ↦ rw q v
]

pub clear-Inv : (t : DedupTable) → Inv t → Inv (clear t)
unfolding clear
clear-Inv t v = record {
  unique = tt;
  counted = omega arith;
  bytes = omega arith;
  room = omega arith;
}
