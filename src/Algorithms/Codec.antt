-- ===== src/Algorithms/Codec.antt =====
-- crates/hataori-algorithms/src/batch.rs: the encoding of a batch. The encoding of an item is its
-- type's: `encode_item` and `decode_item`. A `usize` has 64 bits.
use hataori_rs.Prelude.{
  ℕ, zero, suc, ◌+◌, ◌*◌, ◌^◌, Bool, true, false, Option, some, none, List, [], ◌∷◌, ◌++◌, Result,
  ok, err, panic, ltb, leb, eqb, if◌then◌else◌, length, take, drop, get_elem?,
}
use hataori_rs.Prelude.Bytes.{to_le, from_le}
use hataori_rs.Prelude.Fallible.{◌>>=◌}
use hataori_rs.Runtime.Errors.{ActionError}
use hataori_rs.Runtime.Message.{Segments}
use hataori_rs.Algorithms.{LocalMode}
use hataori_rs.Algorithms.Controller.{BatchAction}
pub mod Headers
pub mod Trip
pub mod Tests

abbrev pub max_batch_items : ℕ
max_batch_items = 1048576

unfoldable pub put : ℕ → List ℕ → Result ActionError (List ℕ)
put value out =
    if ltb value (2 ^ 64)
    then ok (out ++ to_le 8 value)
    else err (ActionError.codec "batch count overflow")

-- The number at `at_`, and the place behind it.
unfoldable pub take_number : List ℕ → ℕ → Result ActionError (ℕ × ℕ)
take_number bytes at_ =
    if ltb (at_ + 8) (2 ^ 64)
    then (if leb (at_ + 8) (length bytes)
        then ok (from_le (take 8 (drop at_ bytes)), at_ + 8)
        else err (ActionError.codec "truncated batch header"))
    else err (ActionError.codec "batch header overflow")

-- The segments of one value: their lengths go to the header `h`, and they themselves behind `out`.
unfoldable pub put_segments : Segments → List ℕ → Segments → Result ActionError (List ℕ × Segments)
unfolding put
put_segments [] h out = ok (h, out)
put_segments (s ∷ segments) h out = do
  h' ← put (length s) h
  put_segments segments h' (out ++ s ∷ [])

-- So many numbers from `at_` on.
unfoldable pub take_numbers : ℕ → List ℕ → ℕ → Result ActionError (List ℕ × ℕ)
unfolding take_number
take_numbers zero header at_ = ok ([], at_)
take_numbers (suc n) header at_ = take_number header at_ >>= λ (value, next).
    take_numbers n header next >>= λ (values, end). ok (value ∷ values, end)

-- The table of the segments' lengths. `Vec::with_capacity` panics if so many words of 8 bytes do not fit
-- in an `isize`.
unfoldable pub take_table : ℕ → List ℕ → ℕ → Result ActionError (List (List ℕ) × ℕ)
unfolding take_number take_numbers
take_table zero header at_ = ok ([], at_)
take_table (suc count) header at_ = take_number header at_ >>= λ (n, next).
    if ltb (n * 8) (2 ^ 63)
    then (take_numbers n header next >>= λ (item, behind).
        take_table count header behind >>= λ (items, end). ok (item ∷ items, end))
    else panic

-- `try_fold(0usize, checked_add)` over the numbers of segments.
unfoldable pub sum_counts : ℕ → List (List ℕ) → Result ActionError ℕ
sum_counts total [] = ok total
sum_counts total (item ∷ items) =
    if ltb (total + length item) (2 ^ 64)
    then sum_counts (total + length item) items
    else err (ActionError.codec "segment count overflow")

-- The segments of one item, with the lengths that are to be theirs, and the rest. `next().unwrap()`
-- panics if there are too few.
unfoldable pub take_item : List ℕ → Segments → Result ActionError (Segments × Segments)
take_item [] source = ok ([], source)
take_item (n ∷ lengths) [] = panic
take_item (n ∷ lengths) (bytes ∷ source) =
    if eqb (length bytes) n
    then (take_item lengths source >>= λ (encoded, rest). ok (bytes ∷ encoded, rest))
    else err (ActionError.codec "batch segment length mismatch")

abbrev pub mode_code : LocalMode → ℕ
mode_code LocalMode.sequential = 0
mode_code LocalMode.outer = 1
mode_code LocalMode.inner = 2

unfoldable pub mode_from : Option ℕ → Result ActionError LocalMode
mode_from none = err (ActionError.codec "missing local mode")
mode_from (some b) =
    if eqb b 0
    then ok LocalMode.sequential
    else if eqb b 1
    then ok LocalMode.outer
    else if eqb b 2
    then ok LocalMode.inner
    else err (ActionError.codec "invalid local mode")

module _ {T : Type 0} (encode_item : T → Result ActionError Segments)
    (decode_item : Segments → Result ActionError T) where
  unfoldable pub put_values : List T → List ℕ → Segments → Result ActionError (List ℕ × Segments)
  unfolding put put_segments
  put_values [] h out = ok (h, out)
  put_values (value ∷ values) h out = encode_item value >>= λ segments.
      put (length segments) h >>= λ h'.
      put_segments segments h' out >>= λ (h'', out'). put_values values h'' out'

  unfoldable pub encode_nested : List T → List ℕ → Result ActionError Segments
  unfolding put put_values
  encode_nested values prefix =
      if ltb max_batch_items (length values)
      then err (ActionError.codec "batch item limit exceeded")
      else (put (length values) prefix >>= λ header.
          put_values values header [] >>= λ (h, out). ok (h ∷ out))

  unfoldable pub take_values : List (List ℕ) → Segments → Result ActionError (List T)
  unfolding take_item
  take_values [] source = ok []
  take_values (item ∷ items) source = take_item item source >>= λ (encoded, rest).
      decode_item encoded >>= λ value. take_values items rest >>= λ values. ok (value ∷ values)

  -- The header and the values.
  unfoldable pub decode_nested : Segments → ℕ → Result ActionError (List ℕ × List T)
  unfolding take_number take_table sum_counts take_values
  decode_nested [] prefix = err (ActionError.codec "missing batch header")
  decode_nested (header ∷ segments) prefix = take_number header prefix >>= λ (count, next).
      if ltb max_batch_items count
      then err (ActionError.codec "batch item limit exceeded")
      else (take_table count header next >>= λ (lengths, end).
          if eqb end (length header)
          then (sum_counts 0 lengths >>= λ expected.
              if eqb (length segments) expected
              then (take_values lengths segments >>= λ values. ok (header, values))
              else err (ActionError.codec "batch segment count mismatch"))
          else err (ActionError.codec "trailing batch header bytes"))

  unfoldable pub encode_batch : BatchAction T → Result ActionError Segments
  unfolding put encode_nested
  encode_batch a = put a.start [] >>= λ h. encode_nested a.items (h ++ mode_code a.mode ∷ [])

  unfoldable pub decode_batch : Segments → Result ActionError (BatchAction T)
  unfolding take_number mode_from decode_nested
  decode_batch [] = err (ActionError.codec "missing batch header")
  decode_batch (header ∷ segments) = take_number header 0 >>= λ (start, next).
      mode_from (get_elem? header next) >>= λ mode.
      decode_nested (header ∷ segments) (next + 1) >>= λ (_, items).
      ok (record { start = start; mode = mode; items = items })
