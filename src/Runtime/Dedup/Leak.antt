-- ===== src/Runtime/Dedup/Leak.antt =====
-- crates/hataori-runtime/src/dedup.rs: the byte counter when a redirect is released.
use hataori_rs.Prelude.{ℕ, ◌+◌, ◌≡◌, refl, true, ◌&&◌, some, none, ok, eqb, arith, ◌∙◌, same_self}
use hataori_rs.Prelude.Assoc.{lookup, total, total-remove, lookup-remove}
use hataori_rs.Protocol.Ids.{ActionId, DomainId, RequestId}
use hataori_rs.Runtime.Message.{RuntimeMessageKind, Segments, request_key}
use hataori_rs.Runtime.Dedup.Table.{DedupState, DedupTable, retained, release_at, release_redirect}
use hataori_rs.Runtime.Dedup.Invariant.{Inv}

-- What is left of a table when a redirect of `bytes` bytes is released.
pub record Released (request : RequestId) (bytes : ℕ) (t s : DedupTable) : Type 0 where
  pub gone : lookup request s.entries ≡ none
  pub held : total retained s.entries + bytes ≡ total retained t.entries
  pub counter : s.retained_bytes ≡ t.retained_bytes

-- In a well-formed table, releasing a stored redirect of the same action and domain succeeds and
-- drops its entry: the bytes that the entries hold fall by the redirect's size, while the counter of
-- retained bytes stays where it was.
pub release_redirect-Released :
    (request : RequestId) (action : ActionId) (domain : DomainId) (payload : Segments)
    (bytes expires_at : ℕ) (t : DedupTable)
    → Inv t
    → lookup request t.entries
      ≡ some (
          DedupState.completed action domain
            (some (RuntimeMessageKind.moved, payload))
            bytes
            expires_at)
    → ((release_redirect request action domain t).0 ≡ ok tt)
      × Released request bytes t (release_redirect request action domain t).1
unfolding release_redirect release_at
release_redirect-Released request action domain payload bytes expires_at t v e =
    let same : (eqb action action && eqb domain domain) ≡ true = ground arith in
    rw (e, same)
      (
        refl,
        record {
          gone = lookup-remove request request t.entries v.unique ∙ rw (same_self request) refl;
          held = ground (arith, total-remove retained request t.entries);
          counter = refl;
        },
      )
