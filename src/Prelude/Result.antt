-- ===== src/Prelude/Result.antt =====
-- The outcome of code that may raise: a value, or the exception.
use cross_pilot.Prelude.{Bool, true, false}

pub data Result (E A : Type 0) : Type 0 where
  ok : A → Result E A
  err : E → Result E A

infixl 5 ◌>>=◌ ◌>>◌
abbrev pub ◌>>=◌ : {E A B : Type 0} → Result E A → (A → Result E B) → Result E B
ok a >>= f = f a
err e >>= f = err e

abbrev pub ◌>>◌ : {E B : Type 0} → Result E (Unit {0}) → Result E B → Result E B
m >> k = m >>= λ _. k

-- `if test: raise e`
abbrev pub raise_if : {E : Type 0} → Bool → E → Result E (Unit {0})
raise_if true e = err e
raise_if false e = ok tt

-- What holds of a value that was returned; nothing is said of an exception.
abbrev pub Returned : {E A : Type 0} → (A → Type 0) → Result E A → Type 0
Returned P (ok a) = P a
Returned P (err e) = Unit
