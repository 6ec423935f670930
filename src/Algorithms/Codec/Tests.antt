-- ===== src/Algorithms/Codec/Tests.antt =====
-- A batch of two items of two segments each.
use hataori_rs.Prelude.{ℕ, ◌≡◌, refl, arith, List, [], ◌∷◌, Result, ok, err}
use hataori_rs.Prelude.Bytes.{to_le}
use hataori_rs.Algorithms.{LocalMode}
use hataori_rs.Algorithms.Controller.{BatchAction}
use hataori_rs.Runtime.Errors.{ActionError}
use hataori_rs.Runtime.Message.{Segments}
use hataori_rs.Algorithms.Codec.{encode_batch, decode_batch}
use hataori_rs.Algorithms.Codec.Trip.{decode_batch-encode_batch}

abbrev pair : ℕ → Result ActionError Segments
pair n = ok ((n ∷ []) ∷ (n ∷ n ∷ []) ∷ [])

abbrev unpair : Segments → Result ActionError ℕ
unpair ((n ∷ []) ∷ rest) = ok n
unpair other = err (ActionError.codec "no pair")

abbrev batch : BatchAction ℕ
batch = record { start = 3; mode = LocalMode.outer; items = 5 ∷ 6 ∷ [] }

abbrev parts : List Segments
parts = ((5 ∷ []) ∷ (5 ∷ 5 ∷ []) ∷ []) ∷ ((6 ∷ []) ∷ (6 ∷ 6 ∷ []) ∷ []) ∷ []

decode_batch-encode_batch_example :
    (segments : Segments) × (encode_batch pair unpair batch ≡ ok segments)
    × (decode_batch pair unpair segments ≡ ok batch)
unfolding to_le
decode_batch-encode_batch_example =
    decode_batch-encode_batch pair unpair batch parts
      (
        (refl, refl, omega arith, (omega arith, (omega arith, tt))),
        ((refl, refl, omega arith, (omega arith, (omega arith, tt))), tt),
      )
      (omega arith) (omega arith) (omega arith)
