-- ===== src/Runtime/Pending/Tests.antt =====
-- crates/hataori-runtime/src/pending.rs: runs of a small table and of a promise.
use hataori_rs.Prelude.{ℕ, ◌≡◌, refl, List, [], ◌∷◌, none, some, ok, err, arith}
use hataori_rs.Prelude.Assoc.{lookup, remove}
use hataori_rs.Protocol.Ids.{RequestId}
use hataori_rs.Runtime.Message.{request_key}
use hataori_rs.Runtime.Errors.{RuntimeError, ResourceKind}
use hataori_rs.Runtime.Pending.{PendingEntry, PendingTable, new_table, take_checked, insert_entry}
use hataori_rs.Runtime.Pending.Promises.{Call, new_promise, outcome, outcome-promised}
use hataori_rs.Runtime.Pending.Invariant.{Inv, take_checked_once}
use hataori_rs.Runtime.Pending.Calls.{TableCall, run_table, run_table-Inv}
use hataori_rs.Runtime.Pending.Expiry.{Split, expired-Split}

abbrev request : RequestId
request = record { origin = 1; sequence = 7 }

abbrev entry : PendingEntry
entry = record {
  promise = 0;
  destination = 2;
  action = 3;
  domain = 0;
  trace_id = none;
  expires_at = 100;
  deadline = 50;
  cancel_token = none;
}

abbrev table : PendingTable
table = record { entries = (request, entry) ∷ []; limit = 1 }

abbrev empty : PendingTable
empty = record { entries = []; limit = 1 }

table-Inv : Inv table
unfolding lookup
table-Inv = record { unique = (refl, tt); room = omega arith }

-- A full table takes no more calls.
full_lem :
    insert_entry (record { origin = 1; sequence = 8 }) entry table
    ≡ (err (RuntimeError.resource_exhausted ResourceKind.pending_calls 1), table)
unfolding insert_entry
full_lem = refl

taken_lem : take_checked request 2 3 table ≡ (ok (some entry), empty)
unfolding take_checked lookup remove
taken_lem = refl

take_checked_once_example :
    (lookup request table.entries ≡ some entry)
    × (entry.destination ≡ 2)
    × (entry.action ≡ 3)
    × (take_checked request 2 3 empty ≡ (ok none, empty))
take_checked_once_example = take_checked_once request 2 3 entry table empty table-Inv taken_lem

expired-Split_example : Split 100 request table
expired-Split_example = expired-Split 100 request table table-Inv

abbrev calls : List (Call ℕ)
calls = Call.polling 5 ∷ Call.completing 10 ∷ Call.completing 11 ∷ Call.polling 6 ∷ []

outcome-promised_example : outcome calls new_promise ≡ (10 ∷ [], 5 ∷ [])
outcome-promised_example = outcome-promised calls

abbrev session : List TableCall
session =
    TableCall.on_insert request entry
    ∷ TableCall.on_take request 9 9
    ∷ TableCall.on_expired 100
    ∷ []

run_table-Inv_example : Inv (run_table session (new_table 1))
run_table-Inv_example = run_table-Inv 1 session
