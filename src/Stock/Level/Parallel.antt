-- ===== src/Stock/Level/Parallel.antt =====
-- `simulate_parallel_reserves` of backend/app/engines/inventory.py. Its threads are stepped in any order:
-- a try under the lock is one step, and the raising of the count, which is outside the lock, is a
-- reading and a writing. The pool has at most 32 threads, which allows some of these orders.
pub mod Steps
pub mod Schedules
pub mod Laws
use mathlib.Core.Path.{subst}
use native.Mathlib.Nat.{mul-le-mul_right}
use cross_pilot.Prelude.{ℕ, zero, suc, ◌+◌, Bool, true, false, List, [], ◌∷◌}
use cross_pilot.Prelude.Int.{ℤ, pos}
use cross_pilot.Prelude.Result.{Result, ok, ◌>>=◌}
use cross_pilot.Stock.Level.{
  StockOutcome, applied, insufficient, conflict, ValueError, StockLevel, try_reserve,
}

-- Where a thread stands in `attempt`: it has rounds left, its reservation was applied, it has read the
-- count to raise it, or it has returned, with a reservation or without.
pub data Attempt : Type 0 where
  trying : ℕ → Attempt
  won : Attempt
  loaded : ℕ → Attempt
  over : Bool → Attempt

-- The level and the count that the threads share.
abbrev pub Shared : Type 0
Shared = StockLevel × ℕ

abbrev pub after_try : ℕ → StockOutcome → Attempt
after_try rounds applied = won
after_try rounds insufficient = over false
after_try rounds conflict = trying rounds

unfoldable pub attempt_step : ℤ → Attempt → Shared → Result ValueError (Attempt × Shared)
attempt_step quantity (trying zero) (level, n) = ok (over false, (level, n))
attempt_step quantity (trying (suc rounds)) (level, n) =
    try_reserve level quantity level.version >>= λ r. ok (after_try rounds r.1, (r.0, n))
attempt_step quantity won (level, n) = ok (loaded n, (level, n))
attempt_step quantity (loaded m) (level, n) = ok (over true, (level, m + 1))
attempt_step quantity (over b) (level, n) = ok (over b, (level, n))

-- A step of the thread at a place.
unfoldable pub step_at : ℤ → ℕ → List Attempt → Shared → Result ValueError (List Attempt × Shared)
step_at quantity i [] shared = ok ([], shared)
step_at quantity zero (t ∷ ts) shared = attempt_step quantity t shared >>= λ r. ok (r.0 ∷ ts, r.1)
step_at quantity (suc i) (t ∷ ts) shared = step_at quantity i ts shared >>= λ r. ok (t ∷ r.0, r.1)

unfoldable pub run_schedule :
    ℤ → List ℕ → List Attempt → Shared → Result ValueError (List Attempt × Shared)
run_schedule quantity [] ts shared = ok (ts, shared)
run_schedule quantity (i ∷ schedule) ts shared =
    let rest = λ (r : List Attempt × Shared). run_schedule quantity schedule r.0 r.1 in
    step_at quantity i ts shared >>= rest

unfoldable pub new_attempts : ℕ → List Attempt
new_attempts zero = []
new_attempts (suc n) = trying 16 ∷ new_attempts n

unfoldable pub simulate_parallel_reserves :
    ℤ → ℕ → ℤ → List ℕ → Result ValueError (List Attempt × Shared)
unfolding run_schedule new_attempts
simulate_parallel_reserves available attempts quantity schedule =
    run_schedule quantity schedule (new_attempts attempts)
      (record { available = available; occupied = pos 0; version = 0 }, 0)
