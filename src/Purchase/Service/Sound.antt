-- ===== src/Purchase/Service/Sound.antt =====
-- The steps of a purchase order keep the constraints of the inventory table.
use cross_pilot.Prelude.Text.{String}
use cross_pilot.Prelude.Result.{Result, ok, err}
use cross_pilot.Prelude.Int.{ℤ, pos}
use cross_pilot.Prelude.{ℕ, Bool, Option, none, some, List}
use cross_pilot.Purchase.{
  PoStatus, draft, pending, approved, partial, received, closed, cancelled, Action, submit, reject,
  approve, cancel, close, PurchaseRuleError, Disposition,
}
use cross_pilot.Purchase.Tables.{PurchaseOrder, PurchaseOrderItem, PurchaseReceipt}
use cross_pilot.Purchase.Service.{
  KeyTexts, clean_key, or_rule, get_purchase, set_purchase_status, set_item, move_transit, move_for,
  transition_purchase, ReceiptLine, receive_item, receive_line_at, insert_receipt, receive_new,
  receive_unless, receive_purchase,
}
use cross_pilot.Ledger.Exec.Keeps.{Keeps, keeps_rules}
use cross_pilot.Ledger.Change.Sound.{LedgerSound}
use cross_pilot.Ledger.Direct.Sound.{post_stock-Keeps}

set_purchase_status-Sound :
    (id : ℕ) (status : PoStatus) → Keeps LedgerSound (set_purchase_status id status)
unfolding set_purchase_status
set_purchase_status-Sound id status = record {
  at = λ s h. record { rows = h.rows; apart = h.apart };
}

set_item-Sound : (id : ℕ) (q r : ℤ) → Keeps LedgerSound (set_item id q r)
unfolding set_item
set_item-Sound id q r = record { at = λ s h. record { rows = h.rows; apart = h.apart } }

insert_receipt-Sound :
    (id : ℕ) (disposition : Disposition) (key : Option String)
    → Keeps LedgerSound (insert_receipt id disposition key)
unfolding insert_receipt
insert_receipt-Sound id disposition key = record {
  at = λ s h. record { rows = h.rows; apart = h.apart };
}

or_rule-Sound : {A : Type 0} (r : Result PurchaseRuleError A) → Keeps LedgerSound (or_rule r)
or_rule-Sound (ok a) = search keeps_rules
or_rule-Sound (err e) = search keeps_rules

move_transit-Sound :
    (order : PurchaseOrder) (item : PurchaseOrderItem) (delta : ℤ)
    → Keeps LedgerSound (move_transit order item delta)
unfolding move_transit
move_transit-Sound order item delta =
    post_stock-Keeps item.sku_id order.warehouse_id (pos 0) delta "PURCHASE_ORDER" (some order.id)

move_for-Sound :
    (action : Action) (previous : PoStatus) (order : PurchaseOrder) (item : PurchaseOrderItem)
    → Keeps LedgerSound (move_for action previous order item)
unfolding move_for
move_for-Sound approve previous order item = move_transit-Sound order item item.quantity
move_for-Sound cancel approved order item = search (keeps_rules, move_transit-Sound)
move_for-Sound cancel draft order item = search keeps_rules
move_for-Sound cancel pending order item = search keeps_rules
move_for-Sound cancel partial order item = search keeps_rules
move_for-Sound cancel received order item = search keeps_rules
move_for-Sound cancel closed order item = search keeps_rules
move_for-Sound cancel cancelled order item = search keeps_rules
move_for-Sound submit previous order item = search keeps_rules
move_for-Sound reject previous order item = search keeps_rules
move_for-Sound close previous order item = search keeps_rules

pub transition_purchase-Sound :
    (order_id : ℕ) (action : Action) → Keeps LedgerSound (transition_purchase order_id action)
unfolding transition_purchase get_purchase
transition_purchase-Sound order_id action =
    search (keeps_rules, or_rule-Sound, set_purchase_status-Sound, move_for-Sound) depth 16

receive_item-Sound :
    (order : PurchaseOrder) (disposition : Disposition) (allow_over : Bool)
    (item : PurchaseOrderItem) (quantity : ℤ)
    → Keeps LedgerSound (receive_item order disposition allow_over item quantity)
unfolding receive_item
receive_item-Sound order disposition allow_over item quantity =
    search (keeps_rules, or_rule-Sound, set_item-Sound, post_stock-Keeps) depth 12

receive_line_at-Sound :
    (order : PurchaseOrder) (disposition : Disposition) (allow_over : Bool)
    (items : List PurchaseOrderItem) (line : ReceiptLine)
    → Keeps LedgerSound (receive_line_at order disposition allow_over items line)
unfolding receive_line_at
receive_line_at-Sound order disposition allow_over items line =
    search (keeps_rules, receive_item-Sound)

receive_new-Sound :
    (order_id : ℕ) (disposition : Disposition) (allow_over : Bool) (lines : List ReceiptLine)
    (key : Option String)
    → Keeps LedgerSound (receive_new order_id disposition allow_over lines key)
unfolding receive_new get_purchase
receive_new-Sound order_id disposition allow_over lines key =
    search
      (
        keeps_rules, or_rule-Sound, receive_line_at-Sound, set_purchase_status-Sound,
        insert_receipt-Sound,
      )
      depth 20

receive_unless-Sound :
    (o : Option PurchaseReceipt) (order_id : ℕ) (disposition : Disposition) (allow_over : Bool)
    (lines : List ReceiptLine) (key : Option String)
    → Keeps LedgerSound (receive_unless o order_id disposition allow_over lines key)
receive_unless-Sound (some existing) order_id disposition allow_over lines key =
    unfold get_purchase in search keeps_rules
receive_unless-Sound none order_id disposition allow_over lines key =
    receive_new-Sound order_id disposition allow_over lines key

clean_key-Sound : (py : KeyTexts) (key : Option String) → Keeps LedgerSound (clean_key py key)
unfolding clean_key
clean_key-Sound py none = search keeps_rules
clean_key-Sound py (some value) = search keeps_rules

pub receive_purchase-Sound :
    (py : KeyTexts) (order_id : ℕ) (disposition : Disposition) (allow_over : Bool)
    (lines : List ReceiptLine) (key : Option String)
    → Keeps LedgerSound (receive_purchase py order_id disposition allow_over lines key)
unfolding receive_purchase
receive_purchase-Sound py order_id disposition allow_over lines key =
    search (keeps_rules, clean_key-Sound, receive_unless-Sound)
