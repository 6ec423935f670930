-- ===== src/Prelude/Fallible.antt =====
-- `?` on a `Result`, for functions that keep no state.
use mathlib.Core.Bool.{Bool, true, false}
use hataori_rs.Prelude.Outcome.{Result, ok, err, panic}

module _ {ℓ κ} {E : Type 0} {A : Type ℓ} {B : Type κ} where
  infixl 5 ◌>>=◌
  abbrev pub ◌>>=◌ : Result E A → (A → Result E B) → Result E B
  ok value >>= next = next value
  err error >>= next = err error
  panic >>= next = panic

-- `if !test { return Err(error) }`.
abbrev pub ensure : {E : Type 0} → Bool → E → Result E (Unit {0})
ensure true error = ok tt
ensure false error = err error

infixl 5 ◌>>◌
abbrev pub ◌>>◌ {κ} : {E : Type 0} {B : Type κ} → Result E (Unit {0}) → Result E B → Result E B
first >> rest = first >>= λ _. rest
