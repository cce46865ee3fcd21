-- ===== src/Stock/Tests.antt =====
-- The stock rules on concrete bins.
use mathlib.Core.List.{flatten}
use cross_pilot.Prelude.Result.{ok, ◌>>=◌, Returned}
use cross_pilot.Prelude.Int.{pos, ◌+ℤ◌, ◌-ℤ◌}
use cross_pilot.Prelude.{All, ℕ, ◌≡◌, refl, true, false, List, [], ◌∷◌, arith}
use cross_pilot.Stock.Level.{applied, StockLevel, try_reserve, try_release, reserve, run}
use cross_pilot.Stock.Level.Laws.{IsSound, Versioned, run-IsSound, run-Versioned, reserve-release}
use cross_pilot.Stock.Level.Parallel.{
  over, attempt_step, step_at, run_schedule, new_attempts, simulate_parallel_reserves,
}
use cross_pilot.Stock.Level.Parallel.Laws.{Reserved, simulate-Reserved}
use cross_pilot.Stock.Allocate.{
  BinView, Allocation, insert_bin, sort_bins, choose, plan_allocations,
}
use cross_pilot.Stock.Allocate.Sorting.{capacity}
use cross_pilot.Stock.Allocate.Laws.{total, lacking, plan_exact, ComesFrom, plan-ComesFrom}
use cross_pilot.Stock.Push.{chunk_updates}
use cross_pilot.Stock.Push.Chunks.{FitsIn, chunk_updates_lem}

abbrev shelf : StockLevel
shelf = record { available = pos 10; occupied = pos 4; version = 7 }

shelf-IsSound : IsSound shelf
shelf-IsSound = ground arith

run-IsSound_example : Returned (λ r. IsSound r.0) (run reserve shelf (pos 3) 7)
run-IsSound_example = run-IsSound reserve shelf (pos 3) 7 shelf-IsSound

run-Versioned_example : Returned (Versioned shelf 6) (run reserve shelf (pos 3) 6)
run-Versioned_example = run-Versioned reserve shelf (pos 3) 6

reserve-release_example :
    (try_reserve shelf (pos 6) 7 >>= λ r. try_release r.0 (pos 6) r.0.version)
    ≡ ok (record shelf { version = 9 }, applied)
unfolding ◌+ℤ◌
reserve-release_example = reserve-release shelf (pos 6) shelf-IsSound (omega arith) (omega arith)

abbrev three_turns : List ℕ
three_turns = 0 ∷ 0 ∷ 1 ∷ 1 ∷ 0 ∷ 1 ∷ 2 ∷ 2 ∷ 2 ∷ []

simulate-Reserved_example : Reserved 5 3 2 three_turns
simulate-Reserved_example = simulate-Reserved 5 3 2 three_turns

-- Two threads that read the count before either raises it count one success for two reservations.
loses_count :
    simulate_parallel_reserves (pos 5) 3 (pos 2) three_turns
    ≡ ok (
      over true ∷ over true ∷ over false ∷ [],
      (record { available = pos 5; occupied = pos 4; version = 2 }, 1),
    )
unfolding simulate_parallel_reserves run_schedule step_at attempt_step new_attempts try_reserve ◌+ℤ◌
    ◌-ℤ◌
loses_count = refl

abbrev bins : List BinView
bins =
    record {
      warehouse_id = 1;
      available = pos 9;
      occupied = pos 0;
      is_default = false;
      warehouse_type = "PLATFORM";
    }
    ∷ record {
      warehouse_id = 2;
      available = pos 5;
      occupied = pos 1;
      is_default = false;
      warehouse_type = "LOCAL";
    }
    ∷ record {
      warehouse_id = 3;
      available = pos 3;
      occupied = pos 0;
      is_default = true;
      warehouse_type = "FBA";
    }
    ∷ []

-- The default bin first, then the other one; the platform's goods are not touched.
planned :
    plan_allocations bins (pos 8)
    ≡ ok (
      record { warehouse_id = 3; quantity = pos 3 }
          ∷ record { warehouse_id = 2; quantity = pos 4 }
          ∷ [],
      pos 1,
    )
unfolding plan_allocations sort_bins insert_bin choose ◌-ℤ◌
planned = refl

plan_exact_example :
    (chosen : List Allocation) × (plan_allocations bins (pos 8)
      ≡ ok (chosen, pos (lacking 8 (capacity bins))))
    × (total chosen +ℤ pos (lacking 8 (capacity bins)) ≡ pos 8)
plan_exact_example = plan_exact bins 8

plan-ComesFrom_example : All (ComesFrom bins) (
    record { warehouse_id = 3; quantity = pos 3 }
    ∷ record { warehouse_id = 2; quantity = pos 4 }
    ∷ [])
plan-ComesFrom_example = plan-ComesFrom bins (pos 8) planned

chunk_updates_example :
    (chunks : List (List ℕ)) × (chunk_updates (1 ∷ 2 ∷ 3 ∷ []) (pos 2) ≡ ok chunks)
    × (flatten chunks ≡ 1 ∷ 2 ∷ 3 ∷ [])
    × All (FitsIn 2) chunks
chunk_updates_example = chunk_updates_lem (1 ∷ 2 ∷ 3 ∷ []) 1
