-- ===== src/Runtime/Pending/Calls.antt =====
-- crates/hataori-runtime/src/pending.rs: sequences of calls of a table's methods.
use hataori_rs.Prelude.{ℕ, List, [], ◌∷◌, arith}
use hataori_rs.Protocol.Ids.{ActionId, LocalityId, RequestId}
use hataori_rs.Runtime.Pending.{
  PendingEntry, PendingTable, new_table, insert_entry, take_checked, remove_entry, expired,
  expired_requests, drain,
}
use hataori_rs.Runtime.Pending.Invariant.{
  Inv, removed, insert_entry-Inv, take_checked-Inv, take_all-Inv,
}

pub data TableCall : Type 0 where
  on_insert : RequestId → PendingEntry → TableCall
  on_take : RequestId → LocalityId → ActionId → TableCall
  on_remove : RequestId → TableCall
  on_expired : ℕ → TableCall
  on_drain : TableCall

-- The table that a call leaves, whether it succeeds or not.
unfoldable pub perform : TableCall → PendingTable → PendingTable
perform (TableCall.on_insert request entry) t = (insert_entry request entry t).1
perform (TableCall.on_take request source action) t = (take_checked request source action t).1
perform (TableCall.on_remove request) t = (remove_entry request t).1
perform (TableCall.on_expired now) t = (expired now t).1
perform TableCall.on_drain t = (drain t).1

unfoldable pub run_table : List TableCall → PendingTable → PendingTable
unfolding perform
run_table [] t = t
run_table (call ∷ calls) t = run_table calls (perform call t)

kept : (call : TableCall) (t : PendingTable) → Inv t → Inv (perform call t)
unfolding perform remove_entry expired drain
kept (TableCall.on_insert request entry) t v = insert_entry-Inv request entry t v
kept (TableCall.on_take request source action) t v = take_checked-Inv request source action t v
kept (TableCall.on_remove request) t v = removed t request v
kept (TableCall.on_expired now) t v = take_all-Inv (expired_requests now t.entries) t v
kept TableCall.on_drain t v = record { unique = tt; room = omega arith }

all_kept : (calls : List TableCall) (t : PendingTable) → Inv t → Inv (run_table calls t)
unfolding run_table
all_kept [] t v = v
all_kept (call ∷ calls) t v = all_kept calls (perform call t) (kept call t v)

-- Whatever calls are made on a new table, failed ones included, it holds one entry a request and no
-- more entries than its limit.
pub run_table-Inv : (limit : ℕ) (calls : List TableCall) → Inv (run_table calls (new_table limit))
unfolding new_table
run_table-Inv limit calls =
    all_kept calls (new_table limit) (record { unique = tt; room = omega arith })
