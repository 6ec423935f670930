-- ===== src/Runtime/Dedup/Tests.antt =====
-- crates/hataori-runtime/src/dedup.rs: runs of a small table.
use hataori_rs.Prelude.{false, List, [], ◌∷◌, some, ok, err, ◌≡◌, refl, arith}
use hataori_rs.Prelude.Assoc.{lookup, insert}
use hataori_rs.Protocol.Ids.{RequestId}
use hataori_rs.Runtime.Message.{RuntimeMessageKind, RuntimeMessage, request_key}
use hataori_rs.Runtime.Errors.{RuntimeError, ResourceKind}
use hataori_rs.Runtime.Dedup.Table.{
  DedupState, DedupDisposition, DedupTable, new_table, begin, release_redirect,
}
use hataori_rs.Runtime.Dedup.Complete.{complete}
use hataori_rs.Runtime.Dedup.Invariant.{Inv}
use hataori_rs.Runtime.Dedup.Calls.{Call, Covered, perform_all, perform_all-Inv}
use hataori_rs.Runtime.Dedup.Replay.{answered, begin-complete, begin_twice}
use hataori_rs.Runtime.Dedup.Leak.{Released, release_redirect-Released}

abbrev request : RequestId
request = record { origin = 1; sequence = 7 }

abbrev answer : RuntimeMessage
answer = record {
  kind = RuntimeMessageKind.success;
  request = request;
  action = 3;
  domain = 2;
  deadline_ms = 500;
  payload = (10 ∷ 20 ∷ []) ∷ (30 ∷ []) ∷ [];
}

abbrev redirect : RuntimeMessage
redirect = record answer { kind = RuntimeMessageKind.moved }

abbrev started : List Call
started = Call.on_begin request 3 2 100 ∷ []

abbrev redirected : List Call
redirected = Call.on_begin request 3 2 100 ∷ Call.on_complete redirect 110 ∷ []

-- One entry, 64 bytes, and answers that stay for 1000 time units.
abbrev empty : DedupTable
empty = new_table 1 64 1000

abbrev running : DedupTable
running = record empty { entries = (request, DedupState.running 3 2 false) ∷ [] }

abbrev answered_table : DedupTable
answered_table = record empty {
  entries =
      (request, DedupState.completed 3 2 (some (RuntimeMessageKind.success, answer.payload)) 3 1110)
      ∷ [];
  retained_bytes = 3;
}

abbrev redirected_table : DedupTable
redirected_table = record empty {
  entries =
      (request, DedupState.completed 3 2 (some (RuntimeMessageKind.moved, answer.payload)) 3 1110)
      ∷ [];
  retained_bytes = 3;
}

started_lem : begin request 3 2 100 empty ≡ (ok DedupDisposition.new, running)
unfolding begin new_table lookup insert
started_lem = refl

empty-Inv : Inv empty
unfolding new_table
empty-Inv = record { unique = tt; counted = omega arith; bytes = omega arith; room = omega arith }

running-Inv : Inv running
unfolding lookup new_table
running-Inv = record {
  unique = (refl, tt);
  counted = omega arith;
  bytes = omega arith;
  room = omega arith;
}

redirected-Inv : Inv redirected_table
unfolding lookup new_table
redirected-Inv = record {
  unique = (refl, tt);
  counted = omega arith;
  bytes = omega arith;
  room = omega arith;
}

answered_lem : complete answer 110 running ≡ (ok tt, answered_table)
unfolding complete new_table lookup insert
answered_lem = refl

-- A second call finds the table full.
full_lem :
    (begin (record { origin = 1; sequence = 8 }) 3 2 200 answered_table).0
    ≡ err (RuntimeError.resource_exhausted ResourceKind.dedup_entries 1)
unfolding begin new_table lookup
full_lem = refl

perform_all-Inv_example :
    Inv (perform_all redirected (new_table 1 64 1000))
    × Covered (perform_all redirected (new_table 1 64 1000))
perform_all-Inv_example = perform_all-Inv 1 64 1000 redirected

begin-complete_example :
    (begin request 3 2 500 answered_table).0
    ≡ ok (DedupDisposition.replay (record answer { deadline_ms = 0 }))
unfolding new_table answered
begin-complete_example =
    begin-complete answer 110 500 running answered_table running-Inv (omega arith) answered_lem
      (omega arith)

-- An answer that just fits is kept, and one byte less of a limit makes it unavailable.
abbrev tight : DedupTable
tight = record running { max_bytes = 3 }

tight_lem :
    (begin request 3 2 500 (complete answer 110 tight).1).0
    ≡ ok (DedupDisposition.replay (record answer { deadline_ms = 0 }))
unfolding complete begin new_table lookup insert
tight_lem = refl

begin_twice_example :
    (begin request 3 4 300 running).0
    ≡ err (RuntimeError.protocol "duplicate request changed action or domain")
begin_twice_example = begin_twice request 3 3 2 4 100 300 empty running empty-Inv started_lem

release_redirect-Released_example :
    ((release_redirect request 3 2 redirected_table).0 ≡ ok tt)
    × Released request 3 redirected_table (release_redirect request 3 2 redirected_table).1
unfolding lookup
release_redirect-Released_example =
    release_redirect-Released request 3 2 answer.payload 3 1110 redirected_table redirected-Inv refl
