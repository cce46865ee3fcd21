-- ===== src/Ledger/Service.antt =====
-- The methods that change stock, of the orders, the adjustments, the receipts, the returns, the stock
-- takings, the purchase orders and the transfers.
use cross_pilot.Purchase.Service.Sound.{transition_purchase-Sound, receive_purchase-Sound}
use cross_pilot.Purchase.Service.{KeyTexts, transition_purchase, ReceiptLine, receive_purchase}
use cross_pilot.Purchase.{Action, Disposition}
use cross_pilot.Ledger.Takings.Sound.{create_taking-Sound, takings-Sound}
use cross_pilot.Ledger.Takings.{create_taking, record_counts, post_taking, cancel_taking}
use cross_pilot.Sales.Tables.{ReturnOrder}
use cross_pilot.Ledger.Returns.Sound.{receive_return-Sound}
use cross_pilot.Ledger.Returns.{receive_return}
use cross_pilot.Prelude.{ℕ, Bool, Option, List, []}
use cross_pilot.Ledger.Orders.{reserve_order, release_order, ship_order}
use cross_pilot.Ledger.Orders.Sound.{orders-Sound}
use cross_pilot.Ledger.Direct.{AdjustKind, adjust_stock, post_stock}
use cross_pilot.Ledger.Direct.Sound.{adjust_stock-Keeps, post_stock-Keeps}
use cross_pilot.Ledger.Transfers.{
  ship_transfer, receive_transfer, cancel_transfer, NewLine, create_transfer,
}
use cross_pilot.Ledger.Transfers.Sound.{transfers-Keep, create_transfer-Keeps}
use cross_pilot.Ledger.Change.Sound.{LedgerSound}
use cross_pilot.Ledger.Exec.{Exec, pure, ◌>>◌}
use cross_pilot.Ledger.Exec.Keeps.{Keeps, keeps_rules}
use cross_pilot.Prelude.Text.{String}
use cross_pilot.Prelude.Int.{ℤ}

pub data Request : Type 0 where
  reserving releasing shipping : ℕ → Request
  adjusting : ℕ → ℕ → AdjustKind → ℤ → Option String → Option ℕ → Request
  posting : ℕ → ℕ → ℤ → ℤ → String → Option ℕ → Request
  creating : ℕ → ℕ → List NewLine → Request
  returning : ReturnOrder → Request
  opening_taking : ℕ → Request
  recording : ℕ → List (ℕ × ℤ) → Request
  posting_taking cancelling_taking : ℕ → Request
  purchasing : ℕ → Action → Request
  taking_in : KeyTexts → ℕ → Disposition → Bool → List ReceiptLine → Option String → Request
  sending receiving cancelling : ℕ → Request

-- What was returned is dropped.
abbrev quietly : {A : Type 0} → Exec A → Exec (Unit {0})
quietly m = m >> pure tt

unfoldable pub perform : Request → Exec (Unit {0})
perform (reserving order_id) = reserve_order order_id
perform (releasing order_id) = release_order order_id
perform (shipping order_id) = ship_order order_id
perform (adjusting sku warehouse kind q ref_type ref_id) =
    quietly (adjust_stock sku warehouse kind q ref_type ref_id)
perform (posting sku warehouse available_q transit_q ref_type ref_id) =
    post_stock sku warehouse available_q transit_q ref_type ref_id
perform (creating from to lines) = quietly (create_transfer from to lines)
perform (returning row) = receive_return row
perform (opening_taking warehouse) = quietly (create_taking warehouse)
perform (recording id counts) = record_counts id counts
perform (posting_taking id) = post_taking id
perform (cancelling_taking id) = cancel_taking id
perform (purchasing order_id action) = transition_purchase order_id action
perform (taking_in py order_id disposition allow_over lines key) =
    receive_purchase py order_id disposition allow_over lines key
perform (sending id) = ship_transfer id
perform (receiving id) = receive_transfer id
perform (cancelling id) = cancel_transfer id

-- The reserving, releasing and shipping of orders, an adjustment, a posted receipt, a return, every
-- step of a stock taking, every step and receipt of a purchase order, and the creation, shipping,
-- receipt and cancellation of a transfer keep the CHECK constraints of the inventory table (no number
-- negative, the safety stock included, and no more occupied than available) and its unique index on
-- SKU and warehouse, whatever UPDATEs other transactions commit meanwhile and whether the method
-- returns or raises.
pub perform-Keeps : (r : Request) → Keeps LedgerSound (perform r)
unfolding perform
perform-Keeps (reserving order_id) = (orders-Sound order_id).0
perform-Keeps (releasing order_id) = (orders-Sound order_id).1
perform-Keeps (shipping order_id) = (orders-Sound order_id).2
perform-Keeps (adjusting sku warehouse kind q ref_type ref_id) =
    search (keeps_rules, adjust_stock-Keeps)
perform-Keeps (posting sku warehouse available_q transit_q ref_type ref_id) =
    post_stock-Keeps sku warehouse available_q transit_q ref_type ref_id
perform-Keeps (creating from to lines) = search (keeps_rules, create_transfer-Keeps)
perform-Keeps (returning row) = receive_return-Sound row
perform-Keeps (opening_taking warehouse) = search (keeps_rules, create_taking-Sound)
perform-Keeps (recording id counts) = (takings-Sound id counts).0
perform-Keeps (posting_taking id) = (takings-Sound id []).1
perform-Keeps (cancelling_taking id) = (takings-Sound id []).2
perform-Keeps (purchasing order_id action) = transition_purchase-Sound order_id action
perform-Keeps (taking_in py order_id disposition allow_over lines key) =
    receive_purchase-Sound py order_id disposition allow_over lines key
perform-Keeps (sending id) = (transfers-Keep id).0
perform-Keeps (receiving id) = (transfers-Keep id).1
perform-Keeps (cancelling id) = (transfers-Keep id).2
