-- ===== src/Runtime/Pending/Invariant.antt =====
-- crates/hataori-runtime/src/pending.rs: the table's invariant, and that every method keeps it.
use hataori_rs.Prelude.{
  ◌≤◌, ◌≡◌, refl, ◌∙◌, ◌||◌, not, Option, none, some, List, [], ◌∷◌, ok, leb, eqb, length, arith,
  inl, inr, Bool-cases, Option-cases, same_self,
}
use hataori_rs.Prelude.Assoc.{
  lookup, insert, remove, Unique, insert-Unique, remove-Unique, total-insert, total-remove,
  length-total, lookup-remove,
}
use hataori_rs.Protocol.Ids.{ActionId, LocalityId, RequestId}
use hataori_rs.Runtime.Message.{request_key}
use hataori_rs.Runtime.Pending.{
  PendingEntry, PendingTable, insert_entry, take_at, take_checked, remove_entry, take_all,
}

pub record Inv (t : PendingTable) : Type 0 where
  pub unique : Unique t.entries
  pub room : length t.entries ≤ t.limit

pub removed :
    (t : PendingTable) (request : RequestId)
    → Inv t
    → Inv (record t { entries = remove request t.entries })
removed t request v = record {
  unique = remove-Unique request t.entries v.unique;
  room = omega (
    arith,
    v.room,
    total-remove (λ _. 1) request t.entries,
    length-total t.entries,
    length-total (remove request t.entries),
  );
}

pub insert_entry-Inv :
    (request : RequestId) (entry : PendingEntry) (t : PendingTable)
    → Inv t
    → Inv (insert_entry request entry t).1
unfolding insert_entry
insert_entry-Inv request entry t v = elim (Bool-cases (leb t.limit (length t.entries))) [
  | inl full ↦ rw full (record { unique = v.unique; room = v.room })
  | inr free ↦ rw free (record {
    unique = insert-Unique request entry t.entries v.unique;
    room = ground (
      arith,
      v.room,
      total-insert (λ _. 1) request entry t.entries,
      length-total t.entries,
      length-total (insert request entry t.entries),
    );
  })
]

take_at-Inv :
    (request : RequestId) (source : LocalityId) (action : ActionId) (o : Option PendingEntry)
    (t : PendingTable)
    → Inv t
    → Inv (take_at request source action o t).1
unfolding take_at
take_at-Inv request source action none t v = v
take_at-Inv request source action (some entry) t v =
    elim (Bool-cases (not (eqb entry.destination source) || not (eqb entry.action action))) [
      | inl other ↦ rw other v
      | inr same ↦ rw same (removed t request v)
    ]

pub take_checked-Inv :
    (request : RequestId) (source : LocalityId) (action : ActionId) (t : PendingTable)
    → Inv t
    → Inv (take_checked request source action t).1
unfolding take_checked
take_checked-Inv request source action t v = take_at-Inv request source action _ t v

pub take_all-Inv :
    (requests : List RequestId) (t : PendingTable) → Inv t → Inv (take_all requests t).1
unfolding take_all remove_entry
take_all-Inv [] t v = v
take_all-Inv (request ∷ requests) t v =
    ground (arith, take_all-Inv requests _ (removed t request v))

-- In a well-formed table, an answer is handed to a call only from where the call was sent and for
-- its action, and once: the entry is gone from the table, so that a second answer finds none.
pub take_checked_once :
    (request : RequestId) (source : LocalityId) (action : ActionId) (entry : PendingEntry)
    (t s : PendingTable)
    → Inv t
    → take_checked request source action t ≡ (ok (some entry), s)
    → (lookup request t.entries ≡ some entry)
      × (entry.destination ≡ source)
      × (entry.action ≡ action)
      × (take_checked request source action s ≡ (ok none, s))
unfolding take_checked take_at
take_checked_once request source action entry t s v e =
    elim (Option-cases (lookup request t.entries)) [
      | inl gone ↦ absurd (ground arith)
      | inr (found, at) ↦
          let after : lookup request (remove request t.entries) ≡ none =
            lookup-remove request request t.entries v.unique ∙ rw (same_self request) refl in
          ground (arith, after)
    ]
