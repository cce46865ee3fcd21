-- ===== src/Stock/Moves/Tests.antt =====
-- Transfers between two concrete bins.
use cross_pilot.Prelude.Result.{ok, ◌>>=◌}
use cross_pilot.Prelude.Int.{pos, negsuc, ◌+ℤ◌, ◌-ℤ◌}
use cross_pilot.Prelude.{◌≡◌, arith}
use cross_pilot.Stock.Moves.{
  transfer_out, available, StockMove, Bin, applied, insufficient, apply_bin,
}
use cross_pilot.Stock.Moves.Laws.{
  IsSound, apply_bin-IsSound, shipped, received, cancelled, transfer_ends,
}

abbrev source : Bin
source = record { available = pos 6; occupied = pos 1; in_transit = pos 0 }

abbrev target : Bin
target = record { available = pos 2; occupied = pos 2; in_transit = pos 3 }

abbrev too_much : StockMove
too_much = record {
  available_delta = negsuc 5;
  in_transit_delta = pos 0;
  flow_type = transfer_out;
  bucket = available;
}

apply_bin-IsSound_example :
    IsSound (apply_bin source too_much).1
    × ((apply_bin source too_much).0 ≡ insufficient → (apply_bin source too_much).1 ≡ source)
apply_bin-IsSound_example = apply_bin-IsSound source too_much (ground arith)

transfer_ends_example :
    ((shipped source target (pos 5) >>= λ r. received r.1 r.3 (pos 5))
      ≡ ok (record source { available = pos 1 }, applied, record target { available = pos 7 }))
    × ((shipped source target (pos 5) >>= λ r. cancelled r.1 r.3 (pos 5))
        ≡ ok (applied, source, applied, target))
unfolding ◌+ℤ◌ ◌-ℤ◌
transfer_ends_example =
    transfer_ends source target (pos 5) (ground arith) (ground arith) (omega arith) (omega arith)
