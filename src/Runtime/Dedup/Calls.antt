-- ===== src/Runtime/Dedup/Calls.antt =====
-- crates/hataori-runtime/src/dedup.rs: sequences of calls of a table's methods.
use hataori_rs.Prelude.{ℕ, ◌≤◌, List, [], ◌∷◌, arith}
use hataori_rs.Prelude.Assoc.{total}
use hataori_rs.Protocol.Ids.{ActionId, DomainId, RequestId}
use hataori_rs.Runtime.Message.{RuntimeMessage}
use hataori_rs.Runtime.Dedup.Table.{DedupTable, new_table, expire, begin, release_redirect, cancel}
use hataori_rs.Runtime.Dedup.Complete.{complete, clear}
use hataori_rs.Runtime.Dedup.Invariant.{
  Inv, new_table-Inv, expire-Inv, begin-Inv, release_redirect-Inv, cancel-Inv, complete-Inv,
  clear-Inv,
}
use hataori_rs.Runtime.Dedup.Weighing.{
  held, AllWeighed, total-held, expire-Weighed, begin-Weighed, release_redirect-Weighed,
  cancel-Weighed, complete-Weighed,
}

pub data Call : Type 0 where
  on_begin : RequestId → ActionId → DomainId → ℕ → Call
  on_release : RequestId → ActionId → DomainId → Call
  on_cancel : RequestId → ActionId → DomainId → ℕ → Call
  on_complete : RuntimeMessage → ℕ → Call
  on_expire : ℕ → Call
  on_clear : Call

-- The table that a call leaves, whether it succeeds or not.
unfoldable pub perform : Call → DedupTable → DedupTable
perform (Call.on_begin request action domain now) t = (begin request action domain now t).1
perform (Call.on_release request action domain) t = (release_redirect request action domain t).1
perform (Call.on_cancel request action domain now) t = (cancel request action domain now t).1
perform (Call.on_complete message now) t = (complete message now t).1
perform (Call.on_expire now) t = expire now t
perform Call.on_clear t = clear t

unfoldable pub perform_all : List Call → DedupTable → DedupTable
unfolding perform
perform_all [] t = t
perform_all (call ∷ calls) t = perform_all calls (perform call t)

perform-Inv : (call : Call) (t : DedupTable) → Inv t → Inv (perform call t)
unfolding perform
perform-Inv (Call.on_begin request action domain now) t = begin-Inv request action domain now t
perform-Inv (Call.on_release request action domain) t = release_redirect-Inv request action domain t
perform-Inv (Call.on_cancel request action domain now) t = cancel-Inv request action domain now t
perform-Inv (Call.on_complete message now) t = complete-Inv message now t
perform-Inv (Call.on_expire now) t = expire-Inv now t
perform-Inv Call.on_clear t = clear-Inv t

run-Inv : (calls : List Call) (t : DedupTable) → Inv t → Inv (perform_all calls t)
unfolding perform_all
run-Inv [] t v = v
run-Inv (call ∷ calls) t v = run-Inv calls (perform call t) (perform-Inv call t v)

perform-Weighed : (call : Call) (t : DedupTable) → AllWeighed t → AllWeighed (perform call t)
unfolding perform clear
perform-Weighed (Call.on_begin request action domain now) t =
    begin-Weighed request action domain now t
perform-Weighed (Call.on_release request action domain) t =
    release_redirect-Weighed request action domain t
perform-Weighed (Call.on_cancel request action domain now) t =
    cancel-Weighed request action domain now t
perform-Weighed (Call.on_complete message now) t = complete-Weighed message now t
perform-Weighed (Call.on_expire now) t = expire-Weighed now t
perform-Weighed Call.on_clear t = λ _. tt

run-Weighed : (calls : List Call) (t : DedupTable) → AllWeighed t → AllWeighed (perform_all calls t)
unfolding perform_all
run-Weighed [] t w = w
run-Weighed (call ∷ calls) t w = run-Weighed calls (perform call t) (perform-Weighed call t w)

-- The payloads that a table holds, their bytes counted one by one, are covered by its counter.
abbrev pub Covered : DedupTable → Type 0
Covered t = total held t.entries ≤ t.retained_bytes

-- Whatever calls are made on a new table, failed ones included, it holds one entry a request, no more
-- entries than its limit, and payloads of no more bytes together than its counter says, which is
-- within the byte limit.
pub perform_all-Inv :
    (max_entries max_bytes ttl : ℕ) (calls : List Call)
    → Inv (perform_all calls (new_table max_entries max_bytes ttl))
      × Covered (perform_all calls (new_table max_entries max_bytes ttl))
unfolding new_table
perform_all-Inv max_entries max_bytes ttl calls =
    let t = perform_all calls (new_table max_entries max_bytes ttl) in
    let v : Inv t = run-Inv calls _ (new_table-Inv max_entries max_bytes ttl) in
    (
      v,
      omega (
        arith,
        v.counted,
        total-held t.entries (run-Weighed calls (new_table max_entries max_bytes ttl) tt),
      ),
    )
