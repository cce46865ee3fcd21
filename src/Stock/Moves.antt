-- ===== src/Stock/Moves.antt =====
-- The moves of transfers and stock takings, of backend/app/engines/inventory.py.
pub mod Laws
mod Tests
use cross_pilot.Prelude.Result.{Result, ok, ◌>>=◌, ◌>>◌, raise_if}
use cross_pilot.Prelude.Int.{ℤ, pos, ◌+ℤ◌, ◌-ℤ◌, negate, ltb_ℤ, leb_ℤ}
use cross_pilot.Prelude.{if◌then◌else◌, Bool, ◌&&◌, ◌||◌}

pub data ValueError : Type 0 where
  not_positive : ValueError

pub data FlowType : Type 0 where
  transfer_out transfer_in : FlowType

pub data Bucket : Type 0 where
  available in_transit : Bucket

pub record StockMove : Type 0 where
  pub available_delta : ℤ
  pub in_transit_delta : ℤ
  pub flow_type : FlowType
  pub bucket : Bucket

-- `_positive`
abbrev pub positive : ℤ → Result ValueError (Unit {0})
positive quantity = raise_if (leb_ℤ quantity (pos 0)) not_positive

-- the move of the source bin, and that of the destination
unfoldable pub ship_moves : ℤ → Result ValueError (StockMove × StockMove)
ship_moves quantity = do
  positive quantity
  ok (
    record {
      available_delta = negate quantity;
      in_transit_delta = pos 0;
      flow_type = transfer_out;
      bucket = available;
    },
    record {
      available_delta = pos 0;
      in_transit_delta = quantity;
      flow_type = transfer_in;
      bucket = in_transit;
    },
  )

unfoldable pub receive_move : ℤ → Result ValueError StockMove
receive_move quantity = do
  positive quantity
  ok (record {
    available_delta = quantity;
    in_transit_delta = negate quantity;
    flow_type = transfer_in;
    bucket = available;
  })

-- the move of the destination bin, and that of the source
unfoldable pub cancel_transit_moves : ℤ → Result ValueError (StockMove × StockMove)
cancel_transit_moves quantity = do
  positive quantity
  ok (
    record {
      available_delta = pos 0;
      in_transit_delta = negate quantity;
      flow_type = transfer_in;
      bucket = in_transit;
    },
    record {
      available_delta = quantity;
      in_transit_delta = pos 0;
      flow_type = transfer_out;
      bucket = available;
    },
  )

-- The numbers of a bin, in the order of `apply_bin`: available, occupied, in transit.
pub record Bin : Type 0 where
  pub available : ℤ
  pub occupied : ℤ
  pub in_transit : ℤ

pub data Outcome : Type 0 where
  applied insufficient : Outcome

unfoldable pub apply_bin : Bin → StockMove → Outcome × Bin
apply_bin b move =
    let new_available = b.available +ℤ move.available_delta in
    let new_transit = b.in_transit +ℤ move.in_transit_delta in
    if ltb_ℤ new_available (pos 0) || ltb_ℤ new_transit (pos 0) || ltb_ℤ new_available b.occupied
    then (insufficient, b)
    else (applied, record b { available = new_available; in_transit = new_transit })

unfoldable pub taking_delta : ℤ → ℤ → ℤ
taking_delta book_qty counted_qty = counted_qty -ℤ book_qty

unfoldable pub taking_fits : ℤ → ℤ → ℤ → Bool
taking_fits on_hand occupied delta =
    leb_ℤ (pos 0) (on_hand +ℤ delta) && leb_ℤ occupied (on_hand +ℤ delta)
