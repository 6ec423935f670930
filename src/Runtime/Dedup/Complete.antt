-- ===== src/Runtime/Dedup/Complete.antt =====
-- crates/hataori-runtime/src/dedup.rs: `DedupTable::complete` and `clear`.
use hataori_rs.Prelude.{
  ℕ, ◌+◌, ◌-◌, ◌^◌, Bool, ◌&&◌, not, ◌||◌, Option, none, some, [], ◌∷◌, Result, ok, err, ltb, leb,
  eqb, if◌then◌else◌, length,
}
use hataori_rs.Prelude.Assoc.{lookup, insert}
use hataori_rs.Prelude.Action.{Action, ◌>>=◌, fail, read, modify}
use hataori_rs.Runtime.Message.{RuntimeMessage, Segments, request_key}
use hataori_rs.Runtime.Errors.{RuntimeError, ResourceKind}
use hataori_rs.Runtime.Dedup.Table.{DedupState, DedupTable, retained_at}

-- The fold with `checked_add`; `none` is an overflow.
unfoldable pub payload_size : ℕ → Segments → Option ℕ
payload_size total [] = some total
payload_size total (segment ∷ segments) =
    let rest = payload_size (total + length segment) segments in
    if ltb (total + length segment) (2 ^ 64) then rest else none

-- The call that an entry awaits an answer to.
unfoldable pub awaited : Option DedupState → Result RuntimeError (ℕ × ℕ)
awaited none = err (RuntimeError.protocol "action completed without a dedup entry")
awaited (some (DedupState.running a d c)) = ok (a, d)
awaited (some (DedupState.cancelled a d e)) = ok (a, d)
awaited (some (DedupState.completed a d r b e)) =
    err (RuntimeError.protocol "action completed more than once")

abbrev pub sized : DedupTable → Option ℕ → Result RuntimeError ℕ
sized t none = err (RuntimeError.resource_exhausted ResourceKind.dedup_bytes t.max_bytes)
sized t (some n) = ok n

-- Whether a payload is kept: `checked_add` and the byte limit.
abbrev pub is_kept : DedupTable → ℕ → Bool
is_kept t n = ltb (t.retained_bytes + n) (2 ^ 64) && leb (t.retained_bytes + n) t.max_bytes

-- The table with the answer stored, `n` the payload's size.
unfoldable pub store_answer : RuntimeMessage → ℕ → ℕ → DedupTable → DedupTable
store_answer message n now t =
    let request = message.request in
    let expires_at = now + t.ttl in
    if is_kept t n
    then record t {
      entries =
          insert request
            (DedupState.completed message.action message.domain
              (some (message.kind, message.payload)) n expires_at)
            t.entries;
      retained_bytes = t.retained_bytes + n - retained_at (lookup request t.entries);
    }
    else record t {
      entries =
          insert request (DedupState.completed message.action message.domain none 0 expires_at)
            t.entries;
      retained_bytes = t.retained_bytes - retained_at (lookup request t.entries);
    }

unfoldable pub complete : RuntimeMessage → ℕ → Action DedupTable RuntimeError (Unit {0})
unfolding awaited payload_size store_answer
complete message now = do
  (action, domain) ← read (λ t. awaited (lookup message.request t.entries))
  if not (eqb action message.action) || not (eqb domain message.domain)
      then fail (RuntimeError.protocol "action completion changed request metadata")
      else do
        n ← read (λ t. sized t (payload_size 0 message.payload))
        modify (store_answer message n now)

unfoldable pub clear : DedupTable → DedupTable
clear t = record t { entries = []; retained_bytes = 0 }
