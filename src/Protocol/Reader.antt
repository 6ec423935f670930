-- ===== src/Protocol/Reader.antt =====
-- crates/hataori-runtime-foundation/src/protocol.rs: the byte reader. `usize` has 64 bits, so only
-- a narrowing to `u32` can fail.
use hataori_rs.Prelude.{
  ℕ, zero, suc, [], ◌∷◌, sym, ap, ◌∙◌, ◌+◌, ◌-◌, ◌^◌, ◌≤◌, ◌<◌, ◌≡◌, refl, List, ◌++◌, take, drop,
  length, arith, Result, ok, err, ltb, eqb, if◌then◌else◌, length-drop, length-append,
  take-length_append, drop-length_append,
}
use hataori_rs.Prelude.Bytes.{from_le, to_le, length-to_le, from_le-to_le}
use hataori_rs.Prelude.Action.{Action, ◌>>=◌, pure, fail, read, get, modify, ◌>>◌}
use native.Mathlib.Nat.{zero-add}
use hataori_rs.Protocol.Ids.{ProtocolError}

pub record Reader : Type 0 where
  pub bytes : List ℕ
  pub offset : ℕ

unfoldable pub checked_add : ℕ → ℕ → Result ProtocolError ℕ
checked_add a b = if ltb (a + b) (2 ^ 64) then ok (a + b) else err ProtocolError.length_overflow

unfoldable pub to_u32 : ℕ → Result ProtocolError ℕ
to_u32 value = if ltb value (2 ^ 32) then ok value else err ProtocolError.length_overflow

unfoldable pub new_reader : List ℕ → Reader
new_reader bytes = record { bytes = bytes; offset = 0 }

-- `Reader::take`.
unfoldable pub take_bytes : ℕ → Action Reader ProtocolError (List ℕ)
unfolding checked_add
take_bytes count = do
  r ← get
  end ← read (λ _. checked_add r.offset count)
  if ltb (length r.bytes) end then fail (ProtocolError.invalid_length end (length r.bytes)) else do
    modify (λ s. record s { offset = end })
    pure (take (end - r.offset) (drop r.offset r.bytes))

-- `u8`, `u16`, `u32`, `u64`, `u128`: an integer of a width in bytes.
unfoldable pub take_uint : ℕ → Action Reader ProtocolError ℕ
take_uint width = do bytes ← take_bytes width; pure (from_le bytes)

unfoldable pub finish : Reader → Result ProtocolError (Unit {0})
finish r =
    if eqb r.offset (length r.bytes)
    then ok tt
    else err (ProtocolError.trailing_bytes (length r.bytes - r.offset))

-- What is still to be read.
pub record Ahead (r : Reader) (rest : List ℕ) : Type 0 where
  pub remaining : drop r.offset r.bytes ≡ rest
  pub inside : r.offset ≤ length r.bytes
  pub fits : length r.bytes < 2 ^ 64

pub new_reader-Ahead : (bytes : List ℕ) → length bytes < 2 ^ 64 → Ahead (new_reader bytes) bytes
unfolding new_reader
new_reader-Ahead bytes h = record { remaining = refl; inside = omega arith; fits = h }

drop-nil : (n : ℕ) → drop {A = ℕ} n [] ≡ []
drop-nil zero = refl
drop-nil (suc n) = refl

drop-drop : (xs : List ℕ) (n k : ℕ) → drop k (drop n xs) ≡ drop (n + k) xs
drop-drop xs zero k = rw zero-add
drop-drop [] (suc n) k = ground (arith, drop-nil k, drop-nil (suc n + k))
drop-drop (x ∷ xs) (suc n) k =
    let step : suc n + k ≡ suc (n + k) = omega arith in rw step (drop-drop xs n k)

pub take_bytes-Ahead :
    (r : Reader) (front rest : List ℕ) (count : ℕ)
    → Ahead r (front ++ rest)
    → length front ≡ count
    → (r' : Reader) × (take_bytes count r ≡ (ok front, r')) × Ahead r' rest
unfolding take_bytes
take_bytes-Ahead r front rest count a e = (
  record r { offset = r.offset + count },
  ground (
    arith,
    fits,
    length-append front rest,
    size,
    slice,
    take-length_append front rest,
    a.remaining,
  ),
  record {
    remaining = next;
    inside = omega (arith, size, length-append front rest);
    fits = a.fits;
  },
)
  where
    size : length (front ++ rest) ≡ length r.bytes - r.offset
    size = rw (← a.remaining) (length-drop r.offset r.bytes)

    slice : r.offset + count - r.offset ≡ length front
    slice = omega arith

    next : drop (r.offset + count) r.bytes ≡ rest
    next =
        sym (drop-drop r.bytes r.offset count)
        ∙ ap (drop count) a.remaining
        ∙ rw (← e) (drop-length_append front rest)

    fits : r.offset + count ≤ length r.bytes
    fits = omega (arith, size, length-append front rest)

-- An integer that was written is read back.
pub take_uint-Ahead :
    (r : Reader) (width value : ℕ) (rest : List ℕ)
    → Ahead r (to_le width value ++ rest)
    → value < 256 ^ width
    → (r' : Reader) × (take_uint width r ≡ (ok value, r')) × Ahead r' rest
unfolding take_uint
take_uint-Ahead r width value rest a small =
    let (r', taken, ahead) =
      take_bytes-Ahead r (to_le width value) rest width a (length-to_le width value) in
    (r', rw (taken, from_le-to_le width value small), ahead)

pub finish-Ahead : (r : Reader) → Ahead r [] → finish r ≡ ok tt
unfolding finish
finish-Ahead r a = ground (arith, length-drop r.offset r.bytes, ap length a.remaining)
