-- ===== src/Stock/Level/Laws.antt =====
-- What the five operations on a bin promise.
use cross_pilot.Prelude.{ℕ, ◌+◌, ◌≡◌, ap, ◌∙◌, ◌≢◌, arith}
use cross_pilot.Prelude.Int.{ℤ, pos, ◌+ℤ◌, ◌-ℤ◌, ◌≤ℤ◌, int_laws}
use cross_pilot.Prelude.Result.{ok, ◌>>=◌, Returned}
use cross_pilot.Stock.Level.{
  StockOutcome, applied, insufficient, conflict, StockLevel, try_reserve, try_release, try_ship,
  try_outbound, try_inbound, Op, reserve, release, ship, outbound, inbound, run,
}

-- Reservations are not negative and never exceed the goods.
pub record IsSound (level : StockLevel) : Type 0 where
  pub reserved : pos 0 ≤ℤ level.occupied
  pub covered : level.occupied ≤ℤ level.available

-- What the outcome says of the level after the call: unless it is `applied`, nothing has changed;
-- if it is, the version that the caller saw was the current one, and it has gone up by one.
abbrev pub Versioned : StockLevel → ℕ → StockLevel × StockOutcome → Type 0
Versioned level seen (level', applied) = (level.version ≡ seen) × (level'.version ≡ seen + 1)
Versioned level seen (level', insufficient) = (level.version ≡ seen) × (level' ≡ level)
Versioned level seen (level', conflict) = (level.version ≢ seen) × (level' ≡ level)

-- Every operation keeps a sound bin sound, whatever the quantity and the version that was seen.
pub run-IsSound :
    (op : Op) (level : StockLevel) (quantity : ℤ) (seen : ℕ)
    → IsSound level
    → Returned (λ r. IsSound r.0) (run op level quantity seen)
unfolding run try_reserve try_release try_ship try_outbound try_inbound
run-IsSound reserve level q seen h = grind int_laws
run-IsSound release level q seen h = grind int_laws
run-IsSound ship level q seen h = grind int_laws
run-IsSound outbound level q seen h = grind int_laws
run-IsSound inbound level q seen h = grind int_laws

-- An operation is applied only at the version that the caller saw, and raises it by one; a conflict
-- is reported exactly on another version, and it and a shortage leave the bin as it was.
pub run-Versioned :
    (op : Op) (level : StockLevel) (quantity : ℤ) (seen : ℕ)
    → Returned (Versioned level seen) (run op level quantity seen)
unfolding run try_reserve try_release try_ship try_outbound try_inbound
run-Versioned op level q seen = ground arith

-- When each operation is applied, for a quantity that is not negative and the current version: the
-- bin holds enough of what the operation takes.
abbrev pub Enough : Op → StockLevel → ℤ → Type 0
Enough reserve level q = level.occupied +ℤ q ≤ℤ level.available
Enough release level q = q ≤ℤ level.occupied
Enough ship level q = (q ≤ℤ level.occupied) × (q ≤ℤ level.available)
Enough outbound level q = level.occupied +ℤ q ≤ℤ level.available
Enough inbound level q = Unit

abbrev pub after : Op → StockLevel → ℤ → StockLevel
after reserve level q = record level { occupied = level.occupied +ℤ q; version = level.version + 1 }
after release level q = record level { occupied = level.occupied -ℤ q; version = level.version + 1 }
after ship level q = record {
  available = level.available -ℤ q;
  occupied = level.occupied -ℤ q;
  version = level.version + 1;
}
after outbound level q = record level {
  available = level.available -ℤ q;
  version = level.version + 1;
}
after inbound level q = record level {
  available = level.available +ℤ q;
  version = level.version + 1;
}

run-Enough :
    (op : Op) (level : StockLevel) (q : ℤ)
    → pos 0 ≤ℤ q
    → Enough op level q
    → run op level q level.version ≡ ok (after op level q, applied)
unfolding run try_reserve try_release try_ship try_outbound try_inbound
run-Enough reserve level q h e = grind int_laws
run-Enough release level q h e = grind int_laws
run-Enough ship level q h e = grind int_laws
run-Enough outbound level q h e = grind int_laws
run-Enough inbound level q h e = grind int_laws

reserve_fits :
    (level : StockLevel) (q : ℤ)
    → pos 0 ≤ℤ q
    → level.occupied +ℤ q ≤ℤ level.available
    → try_reserve level q level.version ≡ ok (after reserve level q, applied)
unfolding run
reserve_fits level q h e = run-Enough reserve level q h e

-- A reservation that fits, and then its release, leave the two numbers of the bin as they were, and
-- the version two further.
pub reserve-release :
    (level : StockLevel) (q : ℤ)
    → IsSound level
    → pos 0 ≤ℤ q
    → level.occupied +ℤ q ≤ℤ level.available
    → (try_reserve level q level.version >>= λ r. try_release r.0 q r.0.version)
      ≡ ok (record level { version = level.version + 1 + 1 }, applied)
unfolding run
reserve-release level q s h e = rw (reserve_fits level q h e) (
    run-Enough release (after reserve level q) q h (omega (int_laws, s.reserved))
    ∙ ap (λ o. ok (record level { occupied = o; version = level.version + 1 + 1 }, applied))
        (omega int_laws))

-- Reserving what fits and then shipping it takes from the goods what an outbound without a
-- reservation takes, and leaves the reservations as they were; only the version is one further.
pub reserve-ship :
    (level : StockLevel) (q : ℤ)
    → IsSound level
    → pos 0 ≤ℤ q
    → level.occupied +ℤ q ≤ℤ level.available
    → (try_reserve level q level.version >>= λ r. try_ship r.0 q r.0.version) ≡ (
        try_outbound level q level.version >>= λ r.
        ok (record r.0 { version = r.0.version + 1 }, r.1))
unfolding run
reserve-ship level q s h e =
    rw (reserve_fits level q h e, run-Enough outbound level q h e)
      (run-Enough ship (after reserve level q) q h
          (omega (int_laws, s.reserved), omega (int_laws, s.reserved))
        ∙ ap
            (λ o. ok (
              record {
                available = level.available -ℤ q;
                occupied = o;
                version = level.version + 1 + 1;
              },
              applied,
            ))
            (omega int_laws))
