-- ===== src/Runtime/Dedup/Table.antt =====
-- crates/hataori-runtime/src/dedup.rs: `DedupTable` and its methods. Instants and durations are
-- numbers; the shared cancellation flag of a running entry is a Boolean of the entry.
use hataori_rs.Prelude.{
  ℕ, ◌+◌, ◌-◌, Bool, true, false, ◌&&◌, Option, none, some, List, [], ◌∷◌, ltb, leb, eqb,
  if◌then◌else◌, length,
}
use hataori_rs.Prelude.Assoc.{lookup, insert, remove}
use hataori_rs.Prelude.Action.{Action, ◌>>=◌, ◌>>◌, pure, fail, get, modify}
use hataori_rs.Protocol.Ids.{ActionId, DomainId, RequestId}
use hataori_rs.Runtime.Message.{RuntimeMessageKind, RuntimeMessage, Segments, request_key}
use hataori_rs.Runtime.Errors.{RuntimeError, ResourceKind}

pub data DedupState : Type 0 where
  -- action, domain, cancelled
  running : ActionId → DomainId → Bool → DedupState
  -- action, domain, response, retained bytes, expiry
  completed : ActionId → DomainId → Option (RuntimeMessageKind × Segments) → ℕ → ℕ → DedupState
  -- action, domain, expiry
  cancelled : ActionId → DomainId → ℕ → DedupState

-- `new` stands for `New(flag)`: the flag is in the table.
pub data DedupDisposition : Type 0 where
  new : DedupDisposition
  running : DedupDisposition
  replay : RuntimeMessage → DedupDisposition
  unavailable : RuntimeMessage → DedupDisposition
  cancelled : RuntimeMessage → DedupDisposition

pub record DedupTable : Type 0 where
  pub entries : List (RequestId × DedupState)
  pub max_entries : ℕ
  pub max_bytes : ℕ
  pub retained_bytes : ℕ
  pub ttl : ℕ

abbrev Dedup : Type 0 → Type 0
Dedup A = Action DedupTable RuntimeError A

unfoldable pub new_table : ℕ → ℕ → ℕ → DedupTable
new_table max_entries max_bytes ttl = record {
  entries = [];
  max_entries = max_entries;
  max_bytes = max_bytes;
  retained_bytes = 0;
  ttl = ttl;
}

abbrev pub stored_action : DedupState → ActionId
stored_action (DedupState.running a d c) = a
stored_action (DedupState.completed a d r b e) = a
stored_action (DedupState.cancelled a d e) = a

abbrev pub stored_domain : DedupState → DomainId
stored_domain (DedupState.running a d c) = d
stored_domain (DedupState.completed a d r b e) = d
stored_domain (DedupState.cancelled a d e) = d

abbrev pub retained : DedupState → ℕ
retained (DedupState.running a d c) = 0
retained (DedupState.completed a d r b e) = b
retained (DedupState.cancelled a d e) = 0

abbrev pub is_expired : ℕ → DedupState → Bool
is_expired now (DedupState.running a d c) = false
is_expired now (DedupState.completed a d r b e) = leb e now
is_expired now (DedupState.cancelled a d e) = leb e now

unfoldable pub expired_keys : ℕ → List (RequestId × DedupState) → List RequestId
expired_keys now [] = []
expired_keys now ((request, state) ∷ entries) =
    let rest = expired_keys now entries in if is_expired now state then request ∷ rest else rest

abbrev pub retained_at : Option DedupState → ℕ
retained_at none = 0
retained_at (some state) = retained state

unfoldable pub remove_all : List RequestId → DedupTable → DedupTable
remove_all [] t = t
remove_all (request ∷ requests) t = remove_all requests (record t {
  entries = remove request t.entries;
  retained_bytes = t.retained_bytes - retained_at (lookup request t.entries);
})

unfoldable pub expire : ℕ → DedupTable → DedupTable
unfolding expired_keys remove_all
expire now t = remove_all (expired_keys now t.entries) t

abbrev pub same_call : DedupState → ActionId → DomainId → Bool
same_call state action domain = eqb (stored_action state) action && eqb (stored_domain state) domain

-- What `begin` answers for a stored entry.
unfoldable pub disposition : RequestId → DedupState → DedupDisposition
disposition request (DedupState.running a d c) = DedupDisposition.running
disposition request (DedupState.completed a d none b e) = DedupDisposition.unavailable (record {
  kind = RuntimeMessageKind.duplicate_result_unavailable;
  request = request;
  action = a;
  domain = d;
  deadline_ms = 0;
  payload = [];
})
disposition request (DedupState.completed a d (some (RuntimeMessageKind.moved, payload)) b e) =
    DedupDisposition.running
disposition request (DedupState.completed a d (some (kind, payload)) b e) =
    DedupDisposition.replay (record {
      kind = kind;
      request = request;
      action = a;
      domain = d;
      deadline_ms = 0;
      payload = payload;
    })
disposition request (DedupState.cancelled a d e) = DedupDisposition.cancelled (record {
  kind = RuntimeMessageKind.cancelled;
  request = request;
  action = a;
  domain = d;
  deadline_ms = 0;
  payload = [];
})

-- `begin` on the entry found, after the expiry.
unfoldable pub begin_at :
    RequestId → ActionId → DomainId → Option DedupState → Dedup DedupDisposition
unfolding disposition
begin_at request action domain (some state) =
    if same_call state action domain
    then pure (disposition request state)
    else fail (RuntimeError.protocol "duplicate request changed action or domain")
begin_at request action domain none = do
  t ← get
  if leb t.max_entries (length t.entries)
      then fail (RuntimeError.resource_exhausted ResourceKind.dedup_entries t.max_entries)
      else do
        modify (λ s. record s {
          entries = insert request (DedupState.running action domain false) s.entries;
        })
        pure DedupDisposition.new

unfoldable pub begin : RequestId → ActionId → DomainId → ℕ → Dedup DedupDisposition
unfolding expire begin_at
begin request action domain now = do
  modify (expire now)
  t ← get
  begin_at request action domain (lookup request t.entries)

unfoldable pub release_at : RequestId → ActionId → DomainId → Option DedupState → Dedup (Unit {0})
release_at request action domain none = pure tt
release_at request action domain (some (DedupState.running a d c)) = pure tt
release_at request action domain
      (some (DedupState.completed a d (some (RuntimeMessageKind.moved, payload)) b e)) =
    if eqb a action && eqb d domain
    then modify (λ t. record t { entries = remove request t.entries })
    else pure tt
release_at request action domain (some (DedupState.completed a d (some (kind, payload)) b e)) =
    fail (RuntimeError.protocol "redirect changed request action or domain")
release_at request action domain (some (DedupState.completed a d none b e)) =
    fail (RuntimeError.protocol "redirect changed request action or domain")
release_at request action domain (some (DedupState.cancelled a d e)) =
    fail (RuntimeError.protocol "redirect changed request action or domain")

unfoldable pub release_redirect : RequestId → ActionId → DomainId → Dedup (Unit {0})
unfolding release_at
release_redirect request action domain = do
  t ← get
  release_at request action domain (lookup request t.entries)

-- The flag of a running entry is set; the others are left.
abbrev pub cancel_entry : DedupState → DedupState
cancel_entry (DedupState.running a d c) = DedupState.running a d true
cancel_entry (DedupState.completed a d r b e) = DedupState.completed a d r b e
cancel_entry (DedupState.cancelled a d e) = DedupState.cancelled a d e

unfoldable pub cancel_at :
    RequestId → ActionId → DomainId → ℕ → Option DedupState → Dedup (Unit {0})
cancel_at request action domain now (some state) =
    if same_call state action domain
    then modify (λ t. record t { entries = insert request (cancel_entry state) t.entries })
    else fail (RuntimeError.protocol "cancellation changed request action or domain")
cancel_at request action domain now none = modify λ t.
    if ltb (length t.entries) t.max_entries
    then record t {
      entries = insert request (DedupState.cancelled action domain (now + t.ttl)) t.entries;
    }
    else t

unfoldable pub cancel : RequestId → ActionId → DomainId → ℕ → Dedup (Unit {0})
unfolding expire cancel_at
cancel request action domain now = do
  modify (expire now)
  t ← get
  cancel_at request action domain now (lookup request t.entries)
