-- ===== src/Algorithms.antt =====
-- crates/hataori-algorithms/src: options.rs and error.rs, and the parallel map of batch.rs. A duration
-- is a number.
use Prim.Native.String.{String}
use hataori_rs.Prelude.{
  ℕ, ◌+◌, ◌*◌, ◌^◌, Bool, true, false, ◌||◌, Result, ok, err, panic, ltb, eqb, if◌then◌else◌,
}
use hataori_rs.Prelude.Fallible.{◌>>=◌}
use hataori_rs.Protocol.Ids.{DomainId}
use hataori_rs.Runtime.Errors.{RuntimeError}
pub mod Controller
pub mod Absorb
pub mod Absorbing
pub mod Expected
pub mod Filling
pub mod Slots
pub mod Polling
pub mod Scanning
pub mod Rounds
pub mod Batches
pub mod Running
pub mod Codec
pub mod Ready
pub mod Tests

pub data AlgorithmError : Type 0 where
  runtime : RuntimeError → AlgorithmError
  -- index, message
  callback : ℕ → String → AlgorithmError
  invalid_options : String → AlgorithmError
  input_shape : String → AlgorithmError
  protocol : String → AlgorithmError

pub data LocalMode : Type 0 where
  sequential outer inner : LocalMode

pub record PmapOptions : Type 0 where
  pub batch_size : ℕ
  pub local_mode : LocalMode
  pub prefetch : Bool
  pub deadline : ℕ
  pub domain : DomainId
  pub inflight_limit : ℕ

unfoldable pub validate_options : PmapOptions → Result AlgorithmError (Unit {0})
validate_options o =
    if eqb o.batch_size 0 || ltb 1048576 o.batch_size
    then err (AlgorithmError.invalid_options "batch_size must be between 1 and 1048576")
    else if eqb o.deadline 0
    then err (AlgorithmError.invalid_options "deadline must be nonzero")
    else ok tt

-- `targets.checked_mul(1 + usize::from(self.prefetch))`
unfoldable pub with_targets : ℕ → PmapOptions → Result AlgorithmError PmapOptions
with_targets targets o =
    if eqb targets 0
    then err (AlgorithmError.input_shape "membership must be nonzero")
    else let limit = targets * (1 + (if o.prefetch then 1 else 0)) in
      if ltb limit (2 ^ 64)
      then ok (record o { inflight_limit = limit })
      else err (AlgorithmError.invalid_options "in-flight batch limit overflow")
