-- ===== src/Stock/Level.antt =====
-- `StockLevel` of backend/app/engines/inventory.py: the goods and the reservations of one bin. Each
-- operation names the version that it saw. Python's ints are ℤ; a version only counts up from 0.
pub mod Laws
pub mod Parallel
use cross_pilot.Prelude.{◌==◌, if◌then◌else◌, ℕ, ◌+◌, not, ◌||◌}
use cross_pilot.Prelude.Int.{ℤ, pos, ◌+ℤ◌, ◌-ℤ◌, ltb_ℤ}
use cross_pilot.Prelude.Result.{Result, ok, err}

pub data StockOutcome : Type 0 where
  applied insufficient conflict : StockOutcome

-- the `ValueError` that the functions of this module raise
pub data ValueError : Type 0 where
  negative_quantity : ValueError

pub record StockLevel : Type 0 where
  pub available : ℤ
  pub occupied : ℤ
  pub version : ℕ

-- An operation mutates the level that it is given, and returns an outcome.
abbrev pub Reply : Type 0
Reply = Result ValueError (StockLevel × StockOutcome)

abbrev pub free_qty : ℤ → ℤ → ℤ
free_qty available occupied = available -ℤ occupied

unfoldable pub try_reserve : StockLevel → ℤ → ℕ → Reply
try_reserve level quantity seen_version =
    if ltb_ℤ quantity (pos 0)
    then err negative_quantity
    else if not (level.version == seen_version)
    then ok (level, conflict)
    else if ltb_ℤ (free_qty level.available level.occupied) quantity
    then ok (level, insufficient)
    else ok (
      record level { occupied = level.occupied +ℤ quantity; version = level.version + 1 },
      applied,
    )

unfoldable pub try_release : StockLevel → ℤ → ℕ → Reply
try_release level quantity seen_version =
    if ltb_ℤ quantity (pos 0)
    then err negative_quantity
    else if not (level.version == seen_version)
    then ok (level, conflict)
    else if ltb_ℤ level.occupied quantity
    then ok (level, insufficient)
    else ok (
      record level { occupied = level.occupied -ℤ quantity; version = level.version + 1 },
      applied,
    )

unfoldable pub try_ship : StockLevel → ℤ → ℕ → Reply
try_ship level quantity seen_version =
    if ltb_ℤ quantity (pos 0)
    then err negative_quantity
    else if not (level.version == seen_version)
    then ok (level, conflict)
    else if ltb_ℤ level.occupied quantity || ltb_ℤ level.available quantity
    then ok (level, insufficient)
    else ok (
      record {
        available = level.available -ℤ quantity;
        occupied = level.occupied -ℤ quantity;
        version = level.version + 1;
      },
      applied,
    )

unfoldable pub try_outbound : StockLevel → ℤ → ℕ → Reply
try_outbound level quantity seen_version =
    if ltb_ℤ quantity (pos 0)
    then err negative_quantity
    else if not (level.version == seen_version)
    then ok (level, conflict)
    else if ltb_ℤ (free_qty level.available level.occupied) quantity
    then ok (level, insufficient)
    else ok (
      record level { available = level.available -ℤ quantity; version = level.version + 1 },
      applied,
    )

unfoldable pub try_inbound : StockLevel → ℤ → ℕ → Reply
try_inbound level quantity seen_version =
    if ltb_ℤ quantity (pos 0)
    then err negative_quantity
    else if not (level.version == seen_version)
    then ok (level, conflict)
    else ok (
      record level { available = level.available +ℤ quantity; version = level.version + 1 },
      applied,
    )

-- The five operations, by name.
pub data Op : Type 0 where
  reserve release ship outbound inbound : Op

unfoldable pub run : Op → StockLevel → ℤ → ℕ → Reply
run reserve = try_reserve
run release = try_release
run ship = try_ship
run outbound = try_outbound
run inbound = try_inbound
