-- ===== src/Ledger/Transfers.antt =====
-- Transfers between warehouses: `create_transfer`, `ship_transfer`, `receive_transfer` and
-- `cancel_transfer` of backend/app/services/inventory.py, with their SQL of
-- backend/app/repositories/inventory.py.
pub mod Sound
use cross_pilot.Prelude.{
  ◌==◌, if◌then◌else◌, ℕ, suc, Bool, true, false, not, Option, none, some, List, [], ◌∷◌, ◌++◌,
}
use cross_pilot.Ledger.Tables.{
  Inventory, FlowType, transfer_out, transfer_in, TransferStatus, draft, on_the_way, received,
  cancelled, StockTransfer, StockTransferLine, no_delta, find_warehouse,
}
use cross_pilot.Ledger.Exec.{
  not_found, transfer_state, transfer_warehouse, value_error, Exec, pure, raise, gets, modify,
  or_raise, raise_when, ◌>>=◌, ◌>>◌, for_each,
}
use cross_pilot.Ledger.Change.{Bucket, available, in_transit, has_sku, commit_change}
use cross_pilot.Ledger.Orders.{flush_enqueue}
use cross_pilot.Ledger.Direct.{ensure}
use cross_pilot.Stock.Moves.{StockMove, ship_moves, receive_move, cancel_transit_moves}
use cross_pilot.Stock.Moves
use cross_pilot.Prelude.Result.{Result, ok, err}
use cross_pilot.Prelude.Int.{ℤ}

abbrev pub is_transfer_status : TransferStatus → TransferStatus → Bool
is_transfer_status draft draft = true
is_transfer_status on_the_way on_the_way = true
is_transfer_status received received = true
is_transfer_status cancelled cancelled = true
is_transfer_status a b = false

-- `get_or_404` of the transfers
unfoldable pub find_transfer : ℕ → List StockTransfer → Option StockTransfer
find_transfer id [] = none
find_transfer id (t ∷ ts) = if t.id == id then some t else find_transfer id ts

unfoldable pub lines_for : ℕ → List StockTransferLine → List StockTransferLine
lines_for transfer_id [] = []
lines_for transfer_id (line ∷ lines) =
    let rest = lines_for transfer_id lines in
    if line.transfer_id == transfer_id then line ∷ rest else rest

-- The UPDATE of `transition`, and whether it hit its row.
unfoldable pub set_status :
    ℕ → TransferStatus → TransferStatus → List StockTransfer → List StockTransfer × Bool
set_status id from to [] = ([], false)
set_status id from to (t ∷ ts) =
    let (rest, hit) = set_status id from to ts in
    if t.id == id
    then (if is_transfer_status t.status from
        then (record t { status = to } ∷ ts, true)
        else (t ∷ ts, false))
    else (t ∷ rest, hit)

-- `transition`, with the error that its callers raise
unfoldable pub transition : ℕ → TransferStatus → TransferStatus → Exec (Unit {0})
unfolding set_status
transition id from to s =
    let (transfers, hit) = set_status id from to s.transfers in
    raise_when (not hit) transfer_state (record s { transfers = transfers })

abbrev pub or_value_error : {E A : Type 0} → Result E A → Exec A
or_value_error (ok a) = pure a
or_value_error (err e) = raise value_error

abbrev pub move_flow : Moves.FlowType → FlowType
move_flow Moves.FlowType.transfer_out = transfer_out
move_flow Moves.FlowType.transfer_in = transfer_in

abbrev pub move_bucket : Moves.Bucket → Bucket
move_bucket Moves.Bucket.available = available
move_bucket Moves.Bucket.in_transit = in_transit

-- `_move_leg`
unfoldable pub move_leg : Inventory → StockMove → ℤ → ℕ → Exec (Unit {0})
move_leg row move quantity transfer_id = do
  commit_change row
      (record {
        flow_type = move_flow move.flow_type;
        quantity = quantity;
        before_name = move_bucket move.bucket;
        ref_type = "TRANSFER";
        ref_id = some transfer_id;
      })
      (record no_delta { available = move.available_delta; in_transit = move.in_transit_delta })
  pure tt

unfoldable pub ship_line_of : StockTransfer → StockTransferLine → Exec (Unit {0})
ship_line_of t line = do
  (source_move, dest_move) ← or_value_error (ship_moves line.quantity)
  source ← ensure line.sku_id t.from_warehouse_id
  dest ← ensure line.sku_id t.to_warehouse_id
  move_leg source source_move line.quantity t.id
  move_leg dest dest_move line.quantity t.id

unfoldable pub receive_line_of : StockTransfer → StockTransferLine → Exec (Unit {0})
receive_line_of t line = do
  dest ← ensure line.sku_id t.to_warehouse_id
  move ← or_value_error (receive_move line.quantity)
  move_leg dest move line.quantity t.id

unfoldable pub cancel_line_of : StockTransfer → StockTransferLine → Exec (Unit {0})
cancel_line_of t line = do
  (dest_move, source_move) ← or_value_error (cancel_transit_moves line.quantity)
  dest ← ensure line.sku_id t.to_warehouse_id
  source ← ensure line.sku_id t.from_warehouse_id
  move_leg dest dest_move line.quantity t.id
  move_leg source source_move line.quantity t.id

-- From one status to another, and then what is done with each line.
unfoldable pub advance :
    StockTransfer
    → TransferStatus
    → TransferStatus
    → (StockTransferLine → Exec (Unit {0}))
    → Exec (Unit {0})
advance t from to body = do
  lines ← gets (λ s. lines_for t.id s.transfer_lines)
  transition t.id from to
  for_each body lines
  flush_enqueue

unfoldable pub get_transfer : ℕ → Exec StockTransfer
get_transfer id = do o ← gets (λ s. find_transfer id s.transfers); or_raise o not_found

unfoldable pub ship_transfer : ℕ → Exec (Unit {0})
ship_transfer id = do
  t ← get_transfer id
  raise_when (not (is_transfer_status t.status draft)) transfer_state
  advance t draft on_the_way (ship_line_of t)

unfoldable pub receive_transfer : ℕ → Exec (Unit {0})
receive_transfer id = do
  t ← get_transfer id
  raise_when (not (is_transfer_status t.status on_the_way)) transfer_state
  advance t on_the_way received (receive_line_of t)

unfoldable pub cancel_transfer : ℕ → Exec (Unit {0})
cancel_transfer id = do
  t ← get_transfer id
  if is_transfer_status t.status draft then transition id draft cancelled else (do
    raise_when (not (is_transfer_status t.status on_the_way)) transfer_state
    advance t on_the_way cancelled (cancel_line_of t))

-- The lines of a request: SKU and quantity.
abbrev pub NewLine : Type 0
NewLine = ℕ × ℤ

unfoldable pub need_sku : NewLine → Exec (Unit {0})
need_sku line = do known ← gets (λ s. has_sku line.0 s.skus); raise_when (not known) not_found

unfoldable pub need_warehouse : ℕ → Exec (Unit {0})
need_warehouse id = do w ← gets (λ s. find_warehouse id s.warehouses); or_raise w not_found; pure tt

unfoldable pub insert_transfer : StockTransfer → Exec (Unit {0})
insert_transfer t =
    modify (λ s. record s { transfers = s.transfers ++ t ∷ []; next_id = suc s.next_id })

unfoldable pub add_line : ℕ → NewLine → Exec (Unit {0})
add_line id line = modify (λ s. record s {
  transfer_lines =
      s.transfer_lines ++ record { transfer_id = id; sku_id = line.0; quantity = line.1 } ∷ [];
})

unfoldable pub create_transfer : ℕ → ℕ → List NewLine → Exec ℕ
create_transfer from to lines = do
  raise_when (from == to) transfer_warehouse
  need_warehouse from
  need_warehouse to
  for_each need_sku lines
  id ← gets (λ s. s.next_id)
  insert_transfer
      (record { id = id; from_warehouse_id = from; to_warehouse_id = to; status = draft })
  for_each (add_line id) lines
  pure id
