-- ===== src/Prelude/Action.antt =====
-- `&mut self` methods: a step returns its outcome and the state, which it keeps on every outcome.
use mathlib.Core.Option.{Option, none, some}
use hataori_rs.Prelude.Outcome.{Result, ok, err, panic}

abbrev pub Action : Type 0 → Type 0 → Type 0 → Type 0
Action S E A = S → Result E A × S

abbrev pub continue : {S E A B : Type 0} → (A → Action S E B) → Result E A → S → Result E B × S
continue f (ok a) s = f a s
continue f (err e) s = (err e, s)
continue f panic s = (panic, s)

infixl 5 ◌>>=◌ ◌>>◌
abbrev pub ◌>>=◌ : {S E A B : Type 0} → Action S E A → (A → Action S E B) → Action S E B
◌>>=◌ m f s = continue f (m s).0 (m s).1

abbrev pub ◌>>◌ : {S E B : Type 0} → Action S E (Unit {0}) → Action S E B → Action S E B
m >> k = m >>= λ _. k

abbrev pub pure : {S E A : Type 0} → A → Action S E A
pure a s = (ok a, s)

abbrev pub fail : {S E A : Type 0} → E → Action S E A
fail e s = (err e, s)

-- `&self` methods and early returns.
abbrev pub read : {S E A : Type 0} → (S → Result E A) → Action S E A
read f s = (f s, s)

abbrev pub get : {S E : Type 0} → Action S E S
get s = (ok s, s)

abbrev pub modify : {S E : Type 0} → (S → S) → Action S E (Unit {0})
modify f s = (ok tt, f s)

-- `Option::expect`.
abbrev pub expect : {S E A : Type 0} → Option A → Action S E A
expect none s = (panic, s)
expect (some a) s = (ok a, s)
