-- ===== src/Transport/Submission.antt =====
-- crates/hataori-runtime-foundation/src/transport.rs: `SubmissionState` and `SendPermit`, the accounts
-- of what is queued for each peer. Each method is one step: `gate` lets one reservation in at a time.
-- An atomic subtraction wraps around; an addition that passes 64 bits panics, as does an index out
-- of range.
use Prim.Native.String.{String}
use hataori_rs.Prelude.{
  ℕ, ◌+◌, ◌-◌, ◌*◌, ◌%◌, ◌^◌, Bool, true, false, ◌||◌, Option, none, some, List, [], ◌∷◌, Result,
  ok, err, panic, ltb, eqb, if◌then◌else◌, get_elem?, set, replicate,
}
use hataori_rs.Prelude.Action.{Action, ◌>>=◌, ◌>>◌, pure, fail, read, get, modify, expect}
use hataori_rs.Protocol.Ids.{Channel, channel_code}
use hataori_rs.Protocol.Limits.{ProtocolLimits}
use hataori_rs.Transport.{TransportError, SendTicket}
pub mod Reserve
pub mod Ledger
pub mod Steps
pub mod Tests

pub record SubmissionState : Type 0 where
  pub limits : ProtocolLimits
  pub next_ticket : ℕ
  pub closed : Bool
  pub counts : List ℕ
  pub bytes : List ℕ
  pub submitted_parcels : ℕ
  pub submitted_bytes : ℕ
  pub received_parcels : ℕ
  pub received_bytes : ℕ
  pub peer_failures : ℕ

pub record SendPermit : Type 0 where
  pub peer : ℕ
  pub channel : Channel
  pub bytes : ℕ
  pub ticket : SendTicket

abbrev pub Submit : Type 0 → Type 0
Submit A = Action SubmissionState TransportError A

unfoldable pub new_state : ℕ → ProtocolLimits → SubmissionState
new_state members limits = record {
  limits = limits;
  next_ticket = 1;
  closed = false;
  counts = replicate (members * 3) 0;
  bytes = replicate members 0;
  submitted_parcels = 0;
  submitted_bytes = 0;
  received_parcels = 0;
  received_bytes = 0;
  peer_failures = 0;
}

abbrev pub slot : ℕ → Channel → ℕ
slot peer channel = peer * 3 + channel_code channel

abbrev pub wrap_add : ℕ → ℕ → ℕ
wrap_add a b = (a + b) % 2 ^ 64

abbrev pub wrap_sub : ℕ → ℕ → ℕ
wrap_sub a b = (a + (2 ^ 64 - b % 2 ^ 64)) % 2 ^ 64

-- `fetch_add(..) + ..`: the sum, which is stored too.
abbrev pub summed : ℕ → ℕ → Result TransportError ℕ
summed a b = if ltb (a + b) (2 ^ 64) then ok (a + b) else panic

unfoldable pub add_count : ℕ → Submit ℕ
add_count i = do
  t ← get
  old ← expect (get_elem? t.counts i)
  modify (λ s. record s { counts = set s.counts i (wrap_add old 1) })
  read (λ _. summed old 1)

unfoldable pub sub_count : ℕ → Submit (Unit {0})
sub_count i = do
  t ← get
  old ← expect (get_elem? t.counts i)
  modify (λ s. record s { counts = set s.counts i (wrap_sub old 1) })

unfoldable pub add_bytes : ℕ → ℕ → Submit ℕ
add_bytes peer bytes = do
  t ← get
  old ← expect (get_elem? t.bytes peer)
  modify (λ s. record s { bytes = set s.bytes peer (wrap_add old bytes) })
  read (λ _. summed old bytes)

unfoldable pub sub_bytes : ℕ → ℕ → Submit (Unit {0})
sub_bytes peer bytes = do
  t ← get
  old ← expect (get_elem? t.bytes peer)
  modify (λ s. record s { bytes = set s.bytes peer (wrap_sub old bytes) })

abbrev pub is_control : Channel → Bool
is_control Channel.control = true
is_control Channel.action = false
is_control Channel.bulk = false

abbrev pub byte_limit : ProtocolLimits → Channel → ℕ
byte_limit limits channel =
    if is_control channel
    then limits.max_inflight_bytes_per_peer
    else limits.max_inflight_bytes_per_peer - limits.control_reserved_bytes_per_peer

unfoldable pub release : ℕ → Channel → ℕ → Submit (Unit {0})
release peer channel bytes = do sub_bytes peer bytes; sub_count (slot peer channel)

-- The ticket of a reservation whose count and bytes are taken.
unfoldable pub take_ticket : ℕ → Channel → ℕ → Submit SendPermit
take_ticket peer channel bytes = do
  t ← get
  if eqb t.next_ticket 0 || eqb t.next_ticket (2 ^ 64 - 1)
      then (do release peer channel bytes; fail (TransportError.peer "send ticket overflow"))
      else do
        modify (λ s. record s { next_ticket = t.next_ticket + 1 })
        pure (record { peer = peer; channel = channel; bytes = bytes; ticket = t.next_ticket })

unfoldable pub reserve_bytes : ℕ → Channel → ℕ → Submit SendPermit
reserve_bytes peer channel bytes = do
  t ← get
  total ← add_bytes peer bytes
  if ltb (byte_limit t.limits channel) total
      then (do
        sub_bytes peer bytes
        sub_count (slot peer channel)
        fail (TransportError.byte_limit total (byte_limit t.limits channel)))
      else take_ticket peer channel bytes

unfoldable pub reserve_open : ℕ → Channel → ℕ → Submit SendPermit
reserve_open peer channel bytes = do
  t ← get
  count ← add_count (slot peer channel)
  if ltb t.limits.max_queued_parcels_per_peer count
      then (do
        sub_count (slot peer channel)
        fail (TransportError.queue_full channel t.limits.max_queued_parcels_per_peer))
      else reserve_bytes peer channel bytes

unfoldable pub reserve : ℕ → Channel → ℕ → Submit SendPermit
reserve peer channel bytes = do
  t ← get
  if t.closed then fail TransportError.shutdown else reserve_open peer channel bytes

unfoldable pub close : SubmissionState → SubmissionState
close t = record t { closed = true }

unfoldable pub record_received : ℕ → SubmissionState → SubmissionState
record_received bytes t = record t {
  received_parcels = wrap_add t.received_parcels 1;
  received_bytes = wrap_add t.received_bytes bytes;
}

unfoldable pub record_peer_failure : SubmissionState → SubmissionState
record_peer_failure t = record t { peer_failures = wrap_add t.peer_failures 1 }

-- `SendPermit::commit`: what was reserved stays so until `release`.
unfoldable pub commit : SendPermit → SubmissionState → SubmissionState
commit permit t = record t {
  submitted_parcels = wrap_add t.submitted_parcels 1;
  submitted_bytes = wrap_add t.submitted_bytes permit.bytes;
}

-- A permit that is dropped without a commit.
unfoldable pub drop_permit : SendPermit → Submit (Unit {0})
drop_permit permit = release permit.peer permit.channel permit.bytes
