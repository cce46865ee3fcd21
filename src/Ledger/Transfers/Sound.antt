-- ===== src/Ledger/Transfers/Sound.antt =====
-- Transfers keep the constraints of the inventory table.
use cross_pilot.Ledger.Transfers.{
  set_status, transition, or_value_error, move_leg, ship_line_of, receive_line_of, cancel_line_of,
  advance, get_transfer, ship_transfer, receive_transfer, cancel_transfer, NewLine, need_sku,
  need_warehouse, insert_transfer, add_line, create_transfer,
}
use cross_pilot.Ledger.Direct.Sound.{ensure-Keeps}
use cross_pilot.Ledger.Orders.Sound.{flush_enqueue-Keeps}
use cross_pilot.Ledger.Change.Sound.{LedgerSound, commit_change-Sound}
use cross_pilot.Ledger.Tables.{Inventory, TransferStatus, StockTransfer, StockTransferLine}
use cross_pilot.Ledger.Exec.{Exec}
use cross_pilot.Ledger.Exec.Keeps.{Keeps, keeps_rules}
use cross_pilot.Prelude.Result.{Result, ok, err}
use cross_pilot.Prelude.Int.{ℤ}
use cross_pilot.Prelude.{Bool-cases, ℕ, inl, inr, List}
use cross_pilot.Stock.Moves.{StockMove}

transition-Keeps : (id : ℕ) (from to : TransferStatus) → Keeps LedgerSound (transition id from to)
unfolding transition
transition-Keeps id from to = record {
  at = λ s h. elim (Bool-cases (set_status id from to s.transfers).1) [
    | inl hit ↦ rw hit (record { rows = h.rows; apart = h.apart })
    | inr miss ↦ rw miss (record { rows = h.rows; apart = h.apart })
  ];
}

or_value_error-Keeps : {E A : Type 0} (r : Result E A) → Keeps LedgerSound (or_value_error r)
or_value_error-Keeps (ok a) = search keeps_rules
or_value_error-Keeps (err e) = search keeps_rules

move_leg-Keeps :
    (row : Inventory) (move : StockMove) (quantity : ℤ) (transfer_id : ℕ)
    → Keeps LedgerSound (move_leg row move quantity transfer_id)
unfolding move_leg
move_leg-Keeps row move quantity transfer_id = search (keeps_rules, commit_change-Sound)

ruleset transfer_rules = (
  keeps_rules, transition-Keeps, or_value_error-Keeps, move_leg-Keeps, ensure-Keeps,
  flush_enqueue-Keeps,
)

ship_line_of-Keeps :
    (t : StockTransfer) (line : StockTransferLine) → Keeps LedgerSound (ship_line_of t line)
unfolding ship_line_of
ship_line_of-Keeps t line = search transfer_rules depth 12

receive_line_of-Keeps :
    (t : StockTransfer) (line : StockTransferLine) → Keeps LedgerSound (receive_line_of t line)
unfolding receive_line_of
receive_line_of-Keeps t line = search transfer_rules depth 12

cancel_line_of-Keeps :
    (t : StockTransfer) (line : StockTransferLine) → Keeps LedgerSound (cancel_line_of t line)
unfolding cancel_line_of
cancel_line_of-Keeps t line = search transfer_rules depth 12

advance-Keeps :
    (t : StockTransfer) (from to : TransferStatus) (body : StockTransferLine → Exec (Unit {0}))
    → ((line : StockTransferLine) → Keeps LedgerSound (body line))
    → Keeps LedgerSound (advance t from to body)
unfolding advance
advance-Keeps t from to body k = search (transfer_rules, k) depth 12

get_transfer-Keeps : (id : ℕ) → Keeps LedgerSound (get_transfer id)
unfolding get_transfer
get_transfer-Keeps id = search transfer_rules depth 12

pub transfers-Keep :
    (id : ℕ)
    → Keeps LedgerSound (ship_transfer id)
      × Keeps LedgerSound (receive_transfer id)
      × Keeps LedgerSound (cancel_transfer id)
unfolding ship_transfer receive_transfer cancel_transfer
transfers-Keep id = (
  search (transfer_rules, get_transfer-Keeps, advance-Keeps, ship_line_of-Keeps) depth 12,
  search (transfer_rules, get_transfer-Keeps, advance-Keeps, receive_line_of-Keeps) depth 12,
  search (transfer_rules, get_transfer-Keeps, advance-Keeps, cancel_line_of-Keeps) depth 12,
)

need_sku-Keeps : (line : NewLine) → Keeps LedgerSound (need_sku line)
unfolding need_sku
need_sku-Keeps line = search transfer_rules

need_warehouse-Keeps : (id : ℕ) → Keeps LedgerSound (need_warehouse id)
unfolding need_warehouse
need_warehouse-Keeps id = search transfer_rules

insert_transfer-Keeps : (t : StockTransfer) → Keeps LedgerSound (insert_transfer t)
unfolding insert_transfer
insert_transfer-Keeps t = record { at = λ s h. record { rows = h.rows; apart = h.apart } }

add_line-Keeps : (id : ℕ) (line : NewLine) → Keeps LedgerSound (add_line id line)
unfolding add_line
add_line-Keeps id line = record { at = λ s h. record { rows = h.rows; apart = h.apart } }

pub create_transfer-Keeps :
    (from to : ℕ) (lines : List NewLine) → Keeps LedgerSound (create_transfer from to lines)
unfolding create_transfer
create_transfer-Keeps from to lines =
    search
      (transfer_rules, need_sku-Keeps, need_warehouse-Keeps, insert_transfer-Keeps, add_line-Keeps)
      depth 16
