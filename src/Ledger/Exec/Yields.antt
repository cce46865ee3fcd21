-- ===== src/Ledger/Exec/Yields.antt =====
-- What methods return: a rule for each way in which a method is put together.
use cross_pilot.Prelude.Result.{Result, ok, err}
use cross_pilot.Ledger.Exec.{LedgerError, Session, Exec, pure, raise, continue, ◌>>=◌}

-- A property of what was returned; an exception has it.
abbrev pub OnOk {ℓ} : {A : Type 0} → (A → Type ℓ) → Result LedgerError A → Type ℓ
OnOk Q (ok a) = Q a
OnOk Q (err e) = Unit

-- Whatever `m` returns satisfies `Q`.
pub record Yields {A : Type 0} (Q : A → Type 0) (m : Exec A) : Type 0 where
  pub at : (s : Session) → OnOk Q (m s).0

pub Yields-pure : {A : Type 0} (Q : A → Type 0) (a : A) → Q a → Yields Q (pure a)
Yields-pure Q a h = record { at = λ s. h }

pub Yields-raise : {A : Type 0} (Q : A → Type 0) (e : LedgerError) → Yields Q (raise e)
Yields-raise Q e = record { at = λ s. tt }

Yields-continue :
    {A B : Type 0} (P : A → Type 0) (Q : B → Type 0) (r : Result LedgerError A) (f : A → Exec B)
    (s : Session)
    → OnOk P r
    → ((a : A) → P a → Yields Q (f a))
    → OnOk Q (continue r f s).0
Yields-continue P Q (ok a) f s h k = (k a h).at s
Yields-continue P Q (err e) f s h k = tt

pub Yields-bind :
    {A B : Type 0} (P : A → Type 0) (Q : B → Type 0) (m : Exec A) (f : A → Exec B)
    → Yields P m
    → ((a : A) → P a → Yields Q (f a))
    → Yields Q (m >>= f)
unfolding ◌>>=◌
Yields-bind P Q m f h k = record { at = λ s. Yields-continue P Q (m s).0 f (m s).1 (h.at s) k }

-- Nothing is said of what `m` returns.
pub Yields-after :
    {A B : Type 0} (Q : B → Type 0) (m : Exec A) (f : A → Exec B)
    → ((a : A) → Yields Q (f a))
    → Yields Q (m >>= f)
Yields-after Q m f k =
    Yields-bind (λ _. Unit {0}) Q m f (record { at = λ s. anything (m s).0 }) (λ a _. k a)
  where
    anything : {A : Type 0} (r : Result LedgerError A) → OnOk (λ _. Unit {0}) r
    anything (ok a) = tt
    anything (err e) = tt
