-- ===== src/Ledger/Exec/Runs.antt =====
-- A method that runs after another: by what the first returned.
use cross_pilot.Prelude.Result.{ok, err}
use cross_pilot.Prelude.{◌≡◌, refl}
use cross_pilot.Ledger.Exec.{LedgerError, Session, Exec, ◌>>=◌}

pub run_ok :
    {A B : Type 0} (m : Exec A) (next : A → Exec B) (s s' : Session) (a : A)
    → m s ≡ (ok a, s')
    → (m >>= next) s ≡ next a s'
unfolding ◌>>=◌
run_ok m next s s' a h = rw h refl

pub run_err :
    {A B : Type 0} (m : Exec A) (next : A → Exec B) (s s' : Session) (e : LedgerError)
    → m s ≡ (err e, s')
    → (m >>= next) s ≡ (err e, s')
unfolding ◌>>=◌
run_err m next s s' e h = rw h refl
