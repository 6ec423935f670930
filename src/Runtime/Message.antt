-- ===== src/Runtime/Message.antt =====
-- crates/hataori-runtime/src/wire.rs: runtime messages.
use hataori_rs.Prelude.{ℕ, List, Bool, ◌&&◌, ◌↔◌, ◌≡◌, true, arith, Key, eqb}
use hataori_rs.Protocol.Ids.{ActionId, DomainId, RequestId}

pub data RuntimeMessageKind : Type 0 where
  request success failure cancel cancelled : RuntimeMessageKind
  duplicate_result_unavailable moved : RuntimeMessageKind

abbrev pub Segments : Type 0
Segments = List (List ℕ)

pub record RuntimeMessage : Type 0 where
  pub kind : RuntimeMessageKind
  pub request : RequestId
  pub action : ActionId
  pub domain : DomainId
  pub deadline_ms : ℕ
  pub payload : Segments

abbrev pub request_beq : RequestId → RequestId → Bool
request_beq a b = eqb a.origin b.origin && eqb a.sequence b.sequence

pub request_beq_iff : (a b : RequestId) → (request_beq a b ≡ true) ↔ (a ≡ b)
request_beq_iff a b = ground arith

instance abbrev pub request_key : Key RequestId
request_key = record { same = request_beq; same_iff = request_beq_iff }
