-- ===== src/Prelude/Bytes.antt =====
-- Byte strings as lists of numbers, and fixed-width integers in little-endian order
-- (`to_le_bytes`, `from_le_bytes`).
use Prim.Native.Nat.{ℕ, zero, suc, ◌+◌, ◌*◌, ◌/◌, ◌%◌, ◌^◌, ◌<◌}
use mathlib.Core.Path.{◌≡◌, refl, ap}
use mathlib.Core.List.{List, [], ◌∷◌}
use mathlib.Core.Bool.{Bool, true, false, ◌&&◌}
use mathlib.Core.Logic.{◌↔◌}
use hataori_rs.Prelude.Tests.{eqb}
use native.Mathlib.Omega.{arith}
use hataori_rs.Prelude.Lists.{length, All}

abbrev pub IsByte : ℕ → Type 0
IsByte b = b < 256

unfoldable pub to_le : ℕ → ℕ → List ℕ
to_le zero value = []
to_le (suc width) value = (value % 256) ∷ to_le width (value / 256)

unfoldable pub from_le : List ℕ → ℕ
from_le [] = 0
from_le (b ∷ bytes) = b + 256 * from_le bytes

pub length-to_le : (width value : ℕ) → length (to_le width value) ≡ width
unfolding to_le
length-to_le zero value = refl
length-to_le (suc width) value = ap suc (length-to_le width (value / 256))

pub to_le-IsByte : (width value : ℕ) → All IsByte (to_le width value)
unfolding to_le
to_le-IsByte zero value = tt
to_le-IsByte (suc width) value = (omega arith, to_le-IsByte width (value / 256))

pub from_le-to_le : (width value : ℕ) → value < 256 ^ width → from_le (to_le width value) ≡ value
unfolding to_le from_le
from_le-to_le zero value h = omega arith
from_le-to_le (suc width) value h = omega (arith, from_le-to_le width (value / 256) (grind arith))

-- Every byte string of a width is the encoding of its value.
pub to_le-from_le :
    (bytes : List ℕ) → All IsByte bytes → to_le (length bytes) (from_le bytes) ≡ bytes
unfolding to_le from_le
to_le-from_le [] h = refl
to_le-from_le (b ∷ bytes) h = ground (arith, to_le-from_le bytes h.1)

pub from_le-lt : (bytes : List ℕ) → All IsByte bytes → from_le bytes < 256 ^ length bytes
unfolding from_le
from_le-lt [] h = omega arith
from_le-lt (b ∷ bytes) h = grind (arith, from_le-lt bytes h.1)

-- Equality of byte strings.
abbrev pub same_bytes : List ℕ → List ℕ → Bool
same_bytes [] [] = true
same_bytes [] (b ∷ bs) = false
same_bytes (a ∷ as_) [] = false
same_bytes (a ∷ as_) (b ∷ bs) = eqb a b && same_bytes as_ bs

pub same_bytes_iff : (as_ bs : List ℕ) → (same_bytes as_ bs ≡ true) ↔ (as_ ≡ bs)
same_bytes_iff [] [] = (λ _. refl, λ _. refl)
same_bytes_iff [] (b ∷ bs) = (λ e. cc, λ e. cc)
same_bytes_iff (a ∷ as_) [] = (λ e. cc, λ e. cc)
same_bytes_iff (a ∷ as_) (b ∷ bs) =
    (λ e. ground (arith, same_bytes_iff as_ bs), λ e. ground (arith, same_bytes_iff as_ bs))
