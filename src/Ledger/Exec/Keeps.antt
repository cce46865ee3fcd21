-- ===== src/Ledger/Exec/Keeps.antt =====
-- Invariants of methods: one rule for each way in which a method is put together.
use cross_pilot.Prelude.Result.{Result, ok, err}
use cross_pilot.Prelude.{if◌then◌else◌, Bool, true, false, Option, none, some, List, [], ◌∷◌}
use cross_pilot.Ledger.Exec.{
  LedgerError, Session, Exec, pure, raise, gets, modify, or_raise, raise_when, continue, ◌>>=◌,
  for_each,
}

-- `act` keeps `Inv`, whether it returns or raises.
pub record Keeps {A : Type 0} (Inv : Session → Type 0) (act : Exec A) : Type 0 where
  pub at : (s : Session) → Inv s → Inv (act s).1

module _ {Inv : Session → Type 0} where
  pub Keeps-pure : {A : Type 0} (a : A) → Keeps Inv (pure a)
  Keeps-pure a = record { at = λ s h. h }

  pub Keeps-raise : {A : Type 0} (e : LedgerError) → Keeps Inv (raise {A = A} e)
  Keeps-raise e = record { at = λ s h. h }

  pub Keeps-gets : {A : Type 0} (next : Session → A) → Keeps Inv (gets next)
  Keeps-gets next = record { at = λ s h. h }

  pub Keeps-modify :
      (next : Session → Session) → ((s : Session) → Inv s → Inv (next s)) → Keeps Inv (modify next)
  Keeps-modify next k = record { at = k }

  pub Keeps-or_raise : {A : Type 0} (o : Option A) (e : LedgerError) → Keeps Inv (or_raise o e)
  Keeps-or_raise none e = Keeps-raise e
  Keeps-or_raise (some a) e = Keeps-pure a

  pub Keeps-raise_when : (b : Bool) (e : LedgerError) → Keeps Inv (raise_when b e)
  Keeps-raise_when true e = Keeps-raise e
  Keeps-raise_when false e = Keeps-pure tt

  pub Keeps-if :
      {A : Type 0} (b : Bool) (act n : Exec A)
      → Keeps Inv act
      → Keeps Inv n
      → Keeps Inv (if b then act else n)
  Keeps-if true act n hm hn = hm
  Keeps-if false act n hm hn = hn

  -- The rest of a method keeps what its start left.
  pub Keeps-continue :
      {A B : Type 0} (r : Result LedgerError A) (next : A → Exec B) (s : Session)
      → ((a : A) → Keeps Inv (next a))
      → Inv s
      → Inv (continue r next s).1
  Keeps-continue (ok a) next s k h = (k a).at s h
  Keeps-continue (err e) next s k h = h

  pub Keeps-bind :
      {A B : Type 0} (act : Exec A) (next : A → Exec B)
      → Keeps Inv act
      → ((a : A) → Keeps Inv (next a))
      → Keeps Inv (act >>= next)
  unfolding ◌>>=◌
  Keeps-bind act next first rest = record {
    at = λ s h. Keeps-continue (act s).0 next (act s).1 rest (first.at s h);
  }

  pub Keeps-for_each :
      {A : Type 0} (body : A → Exec (Unit {0})) (xs : List A)
      → ((a : A) → Keeps Inv (body a))
      → Keeps Inv (for_each body xs)
  unfolding for_each
  Keeps-for_each body [] k = Keeps-pure tt
  Keeps-for_each body (x ∷ xs) k = Keeps-bind (body x) _ (k x) (λ _. Keeps-for_each body xs k)

pub ruleset keeps_rules = (
  Keeps-pure, Keeps-raise, Keeps-gets, Keeps-or_raise, Keeps-raise_when, Keeps-if, Keeps-bind,
  Keeps-for_each,
)
