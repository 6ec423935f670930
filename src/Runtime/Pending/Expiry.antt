-- ===== src/Runtime/Pending/Expiry.antt =====
-- crates/hataori-runtime/src/pending.rs: what `expired` and `drain` hand out and what they leave.
use hataori_rs.Prelude.{
  ℕ, ◌+◌, ◌≡◌, refl, ◌∙◌, Bool, true, false, Option, none, some, List, [], ◌∷◌, ok, arith, leb,
  if◌then◌else◌, ◌==◌, inl, inr, Bool-cases, ap, length,
}
use hataori_rs.Prelude.Assoc.{
  lookup, remove, total, weight, total-remove, Unique, remove-Unique, lookup-remove, contains,
  lookup-none_at, length-total,
}
use hataori_rs.Protocol.Ids.{RequestId}
use hataori_rs.Runtime.Message.{request_key}
use hataori_rs.Runtime.Pending.Invariant.{Inv}
use hataori_rs.Runtime.Pending.{
  PendingEntry, PendingTable, keep, remove_entry, take_all, expired, expired_requests,
}

-- The result of `take_all`, which never fails, and the table that it leaves.
taken : List RequestId → PendingTable → List (RequestId × PendingEntry)
taken [] t = []
taken (request ∷ requests) t =
    keep request (lookup request t.entries)
      (taken requests (record t { entries = remove request t.entries }))

left : List RequestId → PendingTable → PendingTable
left [] t = t
left (request ∷ requests) t = left requests (record t { entries = remove request t.entries })

take_all_lem :
    (requests : List RequestId) (t : PendingTable)
    → take_all requests t ≡ (ok (taken requests t), left requests t)
unfolding take_all remove_entry taken left
take_all_lem [] t = refl
take_all_lem (request ∷ requests) t =
    rw (take_all_lem requests (record t { entries = remove request t.entries })) refl

total-keep :
    (w : PendingEntry → ℕ) (request : RequestId) (o : Option PendingEntry)
    (rest : List (RequestId × PendingEntry))
    → total w (keep request o rest) ≡ weight w o + total w rest
total-keep w request none rest = ground arith
total-keep w request (some entry) rest = ground arith

total-taken :
    (w : PendingEntry → ℕ) (requests : List RequestId) (t : PendingTable)
    → total w (taken requests t) + total w (left requests t).entries ≡ total w t.entries
unfolding taken left
total-taken w [] t = omega arith
total-taken w (request ∷ requests) t =
    let next : PendingTable = record t { entries = remove request t.entries } in
    omega (
      arith,
      total-taken w requests next,
      total-remove w request t.entries,
      total-keep w request (lookup request t.entries) (taken requests next),
    )

-- The entry of a request that is due at a time, and the one that is not.
abbrev pub due : ℕ → Option PendingEntry → Option PendingEntry
due now none = none
due now (some entry) = if leb entry.expires_at now then some entry else none

abbrev pub not_due : ℕ → Option PendingEntry → Option PendingEntry
not_due now none = none
not_due now (some entry) = if leb entry.expires_at now then none else some entry

abbrev is_due : ℕ → Option PendingEntry → Bool
is_due now none = false
is_due now (some entry) = leb entry.expires_at now

contains-expired_requests :
    (now : ℕ) (k : RequestId) (m : List (RequestId × PendingEntry))
    → Unique m
    → contains k (expired_requests now m) ≡ is_due now (lookup k m)
unfolding expired_requests lookup
contains-expired_requests now k [] u = refl
contains-expired_requests now k ((j, entry) ∷ m) u = elim (Bool-cases (j == k)) [
  | inl same ↦
      let gone : lookup k m ≡ none = lookup-none_at j k m same u.0 in
      let rest : contains k (expired_requests now m) ≡ false =
        contains-expired_requests now k m u.1 ∙ rw gone refl in
      elim (Bool-cases (leb entry.expires_at now)) [
        | inl old ↦ rw (same, old, same) refl
        | inr live ↦ rw (same, live) rest
      ]
  | inr other ↦
      let rest = contains-expired_requests now k m u.1 in
      elim (Bool-cases (leb entry.expires_at now)) [
        | inl old ↦ rw (other, old, other) rest
        | inr live ↦ rw (other, live) rest
      ]
]

lookup-left :
    (requests : List RequestId) (k : RequestId) (t : PendingTable)
    → Unique t.entries
    → lookup k (left requests t).entries
      ≡ (if contains k requests then none else lookup k t.entries)
unfolding left
lookup-left [] k t u = refl
lookup-left (j ∷ requests) k t u =
    lookup-left requests k (record t { entries = remove j t.entries }) (remove-Unique j t.entries u)
    ∙ ground (arith, lookup-remove k j t.entries u)

abbrev first_of : Option PendingEntry → Option PendingEntry → Option PendingEntry
first_of none other = other
first_of (some entry) other = some entry

lookup-keep :
    (j k : RequestId) (o : Option PendingEntry) (rest : List (RequestId × PendingEntry))
    → lookup k (keep j o rest) ≡ (if j == k then first_of o (lookup k rest) else lookup k rest)
unfolding lookup
lookup-keep j k none rest = ground arith
lookup-keep j k (some entry) rest = refl

lookup-taken :
    (requests : List RequestId) (k : RequestId) (t : PendingTable)
    → Unique t.entries
    → lookup k (taken requests t) ≡ (if contains k requests then lookup k t.entries else none)
unfolding taken lookup
lookup-taken [] k t u = refl
lookup-taken (j ∷ requests) k t u =
    let rest = taken requests (record t { entries = remove j t.entries }) in
    let step : lookup k rest
        ≡ (if contains k requests then (if j == k then none else lookup k t.entries) else none) =
      lookup-taken requests k (record t { entries = remove j t.entries })
        (remove-Unique j t.entries u)
      ∙ ap (λ o. if contains k requests then o else none) (lookup-remove k j t.entries u) in
    lookup-keep j k (lookup j t.entries) rest ∙ elim (Bool-cases (j == k)) [
      | inl same ↦
          let key : lookup j t.entries ≡ lookup k t.entries =
            ap (λ i. lookup i t.entries) ((request_key.same_iff j k).0 same) in
          let nothing : lookup k rest ≡ none =
            step ∙ rw same (none_either (contains k requests) none refl) in
          rw (same, nothing, key) (first_only (lookup k t.entries))
      | inr other ↦ rw other (step ∙ rw other refl)
    ]
  where
    none_either : (b : Bool) (o : Option PendingEntry) → o ≡ none → (if b then o else none) ≡ none
    none_either true o e = e
    none_either false o e = refl

    first_only : (o : Option PendingEntry) → first_of o none ≡ o
    first_only none = refl
    first_only (some entry) = refl

-- What a table that is asked for the calls due at `now` hands out and leaves of one request.
abbrev pub Split : ℕ → RequestId → PendingTable → Type 0
Split now request t =
    (handed : List (RequestId × PendingEntry)) × ((expired now t).0 ≡ ok handed)
    × (lookup request handed ≡ due now (lookup request t.entries))
    × (lookup request (expired now t).1.entries ≡ not_due now (lookup request t.entries))
    × (length handed + length (expired now t).1.entries ≡ length t.entries)

-- In a table with one entry a request, `expired` never fails, and whatever the request: its entry is
-- handed out, under that request, if its time has come, and is left in the table if not. What is handed
-- out and what is left are together as many as there were, so that no entry is handed out twice.
pub expired-Split : (now : ℕ) (request : RequestId) (t : PendingTable) → Inv t → Split now request t
unfolding expired
expired-Split now request t v =
    let requests = expired_requests now t.entries in
    let which = contains-expired_requests now request t.entries v.unique in
    (
      taken requests t,
      rw (take_all_lem requests t) refl,
      lookup-taken requests request t v.unique ∙ rw which (handed_at (lookup request t.entries)),
      rw (take_all_lem requests t)
          (lookup-left requests request t v.unique ∙ rw which (left_at (lookup request t.entries))),
      rw (take_all_lem requests t) (
          omega (
            arith,
            total-taken (λ _. 1) requests t,
            length-total (taken requests t),
            length-total (left requests t).entries,
            length-total t.entries,
          )),
    )
  where
    handed_at : (o : Option PendingEntry) → (if is_due now o then o else none) ≡ due now o
    handed_at none = refl
    handed_at (some entry) = refl

    left_at : (o : Option PendingEntry) → (if is_due now o then none else o) ≡ not_due now o
    left_at none = refl
    left_at (some entry) = refl
