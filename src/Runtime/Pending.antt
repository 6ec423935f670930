-- ===== src/Runtime/Pending.antt =====
-- crates/hataori-runtime/src/pending.rs: `PendingTable`, the calls that await an answer. What its
-- mutex guards is passed along; instants and durations are numbers; a shared promise or cancellation
-- token is named by a number.
use hataori_rs.Prelude.{
  ℕ, Bool, true, false, not, ◌&&◌, ◌||◌, Option, none, some, List, [], ◌∷◌, Result, ok, err, leb,
  eqb, if◌then◌else◌, length,
}
use hataori_rs.Prelude.Assoc.{lookup, insert, remove}
use hataori_rs.Prelude.Action.{Action, ◌>>=◌, ◌>>◌, pure, fail, get, modify}
use hataori_rs.Protocol.Ids.{ActionId, DomainId, LocalityId, RequestId, TraceId}
use hataori_rs.Runtime.Message.{request_key}
use hataori_rs.Runtime.Errors.{RuntimeError, ResourceKind}
pub mod Promises
pub mod Invariant
pub mod Calls
pub mod Expiry
pub mod Tests

pub record PendingEntry : Type 0 where
  pub promise : ℕ
  pub destination : LocalityId
  pub action : ActionId
  pub domain : DomainId
  pub trace_id : Option TraceId
  pub expires_at : ℕ
  pub deadline : ℕ
  pub cancel_token : Option ℕ

-- `PendingTable` with the `PendingState` that it guards.
pub record PendingTable : Type 0 where
  pub entries : List (RequestId × PendingEntry)
  pub limit : ℕ

unfoldable pub new_table : ℕ → PendingTable
new_table limit = record { entries = []; limit = limit }

unfoldable pub insert_entry : RequestId → PendingEntry → Action PendingTable RuntimeError (Unit {0})
insert_entry request entry = do
  t ← get
  if leb t.limit (length t.entries)
      then fail (RuntimeError.resource_exhausted ResourceKind.pending_calls t.limit)
      else modify (λ s. record s { entries = insert request entry s.entries })

unfoldable pub take_at :
    RequestId
    → LocalityId
    → ActionId
    → Option PendingEntry
    → Action PendingTable RuntimeError (Option PendingEntry)
take_at request source action none = pure none
take_at request source action (some entry) =
    if not (eqb entry.destination source) || not (eqb entry.action action)
    then fail (RuntimeError.protocol "result source or action does not match pending request")
    else do modify (λ s. record s { entries = remove request s.entries }); pure (some entry)

unfoldable pub take_checked :
    RequestId → LocalityId → ActionId → Action PendingTable RuntimeError (Option PendingEntry)
unfolding take_at
take_checked request source action = do
  t ← get
  take_at request source action (lookup request t.entries)

unfoldable pub remove_entry : RequestId → Action PendingTable RuntimeError (Option PendingEntry)
remove_entry request = do
  t ← get
  modify (λ s. record s { entries = remove request s.entries })
  pure (lookup request t.entries)

unfoldable pub expired_requests : ℕ → List (RequestId × PendingEntry) → List RequestId
expired_requests now [] = []
expired_requests now ((request, entry) ∷ entries) =
    let rest = expired_requests now entries in
    if leb entry.expires_at now then request ∷ rest else rest

-- What `filter_map` keeps of a removal.
abbrev pub keep :
    RequestId
    → Option PendingEntry
    → List (RequestId × PendingEntry)
    → List (RequestId × PendingEntry)
keep request none rest = rest
keep request (some entry) rest = (request, entry) ∷ rest

unfoldable pub take_all :
    List RequestId → Action PendingTable RuntimeError (List (RequestId × PendingEntry))
unfolding remove_entry
take_all [] = pure []
take_all (request ∷ requests) = do
  taken ← remove_entry request
  rest ← take_all requests
  pure (keep request taken rest)

unfoldable pub expired : ℕ → Action PendingTable RuntimeError (List (RequestId × PendingEntry))
unfolding expired_requests take_all
expired now = do t ← get; take_all (expired_requests now t.entries)

unfoldable pub drain : Action PendingTable RuntimeError (List (RequestId × PendingEntry))
drain = do t ← get; modify (λ s. record s { entries = [] }); pure t.entries
