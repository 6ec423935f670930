-- ===== src/Runtime/Dedup/Expiry.antt =====
-- crates/hataori-runtime/src/dedup.rs: what `expire` leaves.
use hataori_rs.Prelude.{
  ℕ, ◌≡◌, refl, false, Bool, Option, none, some, List, [], ◌∷◌, if◌then◌else◌, arith, ◌∙◌, inl, inr,
  Bool-cases, ◌==◌,
}
use hataori_rs.Prelude.Assoc.{
  lookup, Unique, remove-Unique, lookup-remove, contains, lookup-none_at,
}
use hataori_rs.Protocol.Ids.{RequestId}
use hataori_rs.Runtime.Message.{request_key}
use hataori_rs.Runtime.Dedup.Table.{
  DedupState, DedupTable, is_expired, remove_all, expire, expired_keys,
}

-- The entry that is left of one: none if it has expired.
abbrev pub unexpired : ℕ → Option DedupState → Option DedupState
unexpired now none = none
unexpired now (some state) = if is_expired now state then none else some state

abbrev expired_entry : ℕ → Option DedupState → Bool
expired_entry now none = false
expired_entry now (some state) = is_expired now state

contains-expired_keys :
    (now : ℕ) (k : RequestId) (m : List (RequestId × DedupState))
    → Unique m
    → contains k (expired_keys now m) ≡ expired_entry now (lookup k m)
unfolding expired_keys lookup
contains-expired_keys now k [] u = refl
contains-expired_keys now k ((j, state) ∷ m) u = elim (Bool-cases (j == k)) [
  | inl same ↦
      let gone : lookup k m ≡ none = lookup-none_at j k m same u.0 in
      let rest : contains k (expired_keys now m) ≡ false =
        contains-expired_keys now k m u.1 ∙ rw gone refl in
      elim (Bool-cases (is_expired now state)) [
        | inl old ↦ rw (same, old, same) refl
        | inr live ↦ rw (same, live) rest
      ]
  | inr other ↦
      let rest = contains-expired_keys now k m u.1 in
      elim (Bool-cases (is_expired now state)) [
        | inl old ↦ rw (other, old, other) rest
        | inr live ↦ rw (other, live) rest
      ]
]

lookup-remove_all :
    (keys : List RequestId) (k : RequestId) (t : DedupTable)
    → Unique t.entries
    → lookup k (remove_all keys t).entries ≡ (if contains k keys then none else lookup k t.entries)
unfolding remove_all
lookup-remove_all [] k t u = refl
lookup-remove_all (j ∷ keys) k t u =
    lookup-remove_all keys k _ (remove-Unique j t.entries u)
    ∙ ground (arith, lookup-remove k j t.entries u)

-- `expire` drops the entries whose time has come, and only those; a running entry has no such time.
pub lookup-expire :
    (now : ℕ) (k : RequestId) (t : DedupTable)
    → Unique t.entries
    → lookup k (expire now t).entries ≡ unexpired now (lookup k t.entries)
unfolding expire
lookup-expire now k t u =
    lookup-remove_all (expired_keys now t.entries) k t u
    ∙ rw (contains-expired_keys now k t.entries u) (at (lookup k t.entries))
  where
    at : (o : Option DedupState) → (if expired_entry now o then none else o) ≡ unexpired now o
    at none = refl
    at (some state) = refl
