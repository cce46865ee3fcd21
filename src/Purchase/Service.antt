-- ===== src/Purchase/Service.antt =====
-- What a purchase order does to the stock: `transition` and `receive` with `_move` and `_clean_key` of
-- backend/app/services/purchase.py. The audit log and the views are left out.
pub mod Sound
pub mod Again
mod Tests
use cross_pilot.Prelude.Text.{String, str_eq}
use cross_pilot.Prelude.Result.{Result, ok, err}
use cross_pilot.Prelude.Int.{ℤ, pos, ◌+ℤ◌, negate}
use cross_pilot.Prelude.{
  if◌then◌else◌, ℕ, suc, Bool, true, false, not, ◌&&◌, ◌||◌, Option, none, some, List, [], ◌∷◌,
  ◌++◌, map,
}
use cross_pilot.Purchase.{
  PoStatus, approved, Action, submit, approve, cancel, close, PurchaseRuleError, state_error,
  receipt_error, Disposition, short_close, open_qty, assert_transition, assert_can_receive,
  plan_receive, PoLine, next_receipt_status,
}
use cross_pilot.Purchase.Tables.{
  PurchaseOrder, PurchaseOrderItem, PurchaseReceipt, find_purchase, update_purchase, list_for_order,
  find_item, update_item, receipt_by_key,
}
use cross_pilot.Ledger.Exec.{
  LedgerError, not_found, param_invalid, purchase_state, receipt_invalid, Exec, pure, raise, gets,
  modify, or_raise, raise_when, ◌>>=◌, ◌>>◌, for_each,
}
use cross_pilot.Ledger.Change.{has_sku}
use cross_pilot.Ledger.Direct.{post_stock}
use cross_pilot.Stock.Allocate.{is_zero}

-- The text methods that `_clean_key` calls: `strip`, and the test for one of three characters.
pub record KeyTexts : Type 0 where
  pub strip : String → String
  pub has_mark : String → Bool

unfoldable pub clean_key : KeyTexts → Option String → Exec (Option String)
clean_key py none = pure none
clean_key py (some value) =
    if str_eq (py.strip value) ""
    then pure none
    else raise_when (py.has_mark (py.strip value)) param_invalid >> pure (some (py.strip value))

-- `_raise_rule`
abbrev pub rule_error : PurchaseRuleError → LedgerError
rule_error state_error = purchase_state
rule_error receipt_error = receipt_invalid

abbrev pub or_rule : {A : Type 0} → Result PurchaseRuleError A → Exec A
or_rule (ok a) = pure a
or_rule (err e) = raise (rule_error e)

unfoldable pub get_purchase : ℕ → Exec PurchaseOrder
get_purchase id = do o ← gets (λ s. find_purchase id s.purchases); or_raise o not_found

unfoldable pub set_purchase_status : ℕ → PoStatus → Exec (Unit {0})
set_purchase_status id status = modify (λ s. record s {
  purchases = update_purchase id (λ order. record order { status = status }) s.purchases;
})

unfoldable pub set_item : ℕ → ℤ → ℤ → Exec (Unit {0})
set_item id received_qty short_qty = modify (λ s. record s {
  purchase_items =
      update_item id (λ item. record item { received_qty = received_qty; short_qty = short_qty })
        s.purchase_items;
})

abbrev pub open_of : PurchaseOrderItem → ℤ
open_of item = open_qty item.quantity item.received_qty item.short_qty

abbrev pub is_open : PurchaseOrderItem → Bool
is_open item = not (is_zero (open_of item))

unfoldable pub any_open : List PurchaseOrderItem → Bool
any_open [] = false
any_open (item ∷ items) = is_open item || any_open items

unfoldable pub received_total : List PurchaseOrderItem → ℤ
received_total [] = pos 0
received_total (item ∷ items) = item.received_qty +ℤ received_total items

abbrev pub is_close : Action → Bool
is_close close = true
is_close action = false

abbrev pub is_submit : Action → Bool
is_submit submit = true
is_submit action = false

abbrev pub has_none {ℓ} : {A : Type ℓ} → List A → Bool
has_none [] = true
has_none (x ∷ xs) = false

-- `_move` for a change of the goods on the way
unfoldable pub move_transit : PurchaseOrder → PurchaseOrderItem → ℤ → Exec (Unit {0})
move_transit order item delta =
    post_stock item.sku_id order.warehouse_id (pos 0) delta "PURCHASE_ORDER" (some order.id)

-- What an action does to the stock; `previous` is the status before it.
unfoldable pub move_for : Action → PoStatus → PurchaseOrder → PurchaseOrderItem → Exec (Unit {0})
move_for approve previous order item = move_transit order item item.quantity
move_for cancel approved order item =
    if is_open item then move_transit order item (negate (open_of item)) else pure tt
move_for action previous order item = pure tt

-- `transition`
unfoldable pub transition_purchase : ℕ → Action → Exec (Unit {0})
transition_purchase order_id action = do
  order ← get_purchase order_id
  items ← gets (λ s. list_for_order order.id s.purchase_items)
  raise_when (is_close action && any_open items) purchase_state
  raise_when (is_submit action && has_none items) param_invalid
  next ← or_rule (assert_transition order.status action (received_total items))
  set_purchase_status order.id next
  for_each (move_for action order.status order) items

-- A line of the payload: the item and the quantity.
abbrev pub ReceiptLine : Type 0
ReceiptLine = ℕ × ℤ

unfoldable pub repeats : List ReceiptLine → Bool
unfolding has_sku
repeats [] = false
repeats (line ∷ lines) = has_sku line.0 (map (λ l. l.0) lines) || repeats lines

abbrev pub receipt_ref : Disposition → String
receipt_ref short_close = "PURCHASE_SHORT"
receipt_ref disposition = "PURCHASE_RECEIPT"

unfoldable pub receive_item :
    PurchaseOrder → Disposition → Bool → PurchaseOrderItem → ℤ → Exec (Unit {0})
receive_item order disposition allow_over item quantity = do
  plan ←
      or_rule (
        plan_receive item.quantity item.received_qty item.short_qty quantity disposition allow_over)
  set_item item.id plan.new_received plan.new_short
  post_stock item.sku_id order.warehouse_id plan.receive_qty (negate plan.transit_release)
      (receipt_ref disposition) (some order.id)

unfoldable pub receive_line_at :
    PurchaseOrder → Disposition → Bool → List PurchaseOrderItem → ReceiptLine → Exec (Unit {0})
receive_line_at order disposition allow_over items line = do
  item ← or_raise (find_item line.0 items) not_found
  receive_item order disposition allow_over item line.1

abbrev pub po_line : PurchaseOrderItem → PoLine
po_line item = record {
  ordered = item.quantity;
  received_qty = item.received_qty;
  short_qty = item.short_qty;
}

unfoldable pub insert_receipt : ℕ → Disposition → Option String → Exec (Unit {0})
insert_receipt order_id disposition key = modify (λ s. record s {
  receipts =
      s.receipts
      ++ record {
        id = s.next_id;
        purchase_order_id = order_id;
        disposition = disposition;
        idempotency_key = key;
      }
        ∷ [];
  next_id = suc s.next_id;
})

abbrev pub known_receipt : Option String → List PurchaseReceipt → Option PurchaseReceipt
known_receipt none receipts = none
known_receipt (some key) receipts = receipt_by_key key receipts

-- A receipt whose key is new.
unfoldable pub receive_new :
    ℕ → Disposition → Bool → List ReceiptLine → Option String → Exec (Unit {0})
receive_new order_id disposition allow_over lines key = do
  order ← get_purchase order_id
  or_rule (assert_can_receive order.status)
  items ← gets (λ s. list_for_order order.id s.purchase_items)
  raise_when (repeats lines) receipt_invalid
  for_each (receive_line_at order disposition allow_over items) lines
  fresh ← gets (λ s. list_for_order order.id s.purchase_items)
  set_purchase_status order.id (next_receipt_status (map po_line fresh))
  insert_receipt order.id disposition key

abbrev pub receive_unless :
    Option PurchaseReceipt
    → ℕ
    → Disposition
    → Bool
    → List ReceiptLine
    → Option String
    → Exec (Unit {0})
receive_unless (some existing) order_id disposition allow_over lines key =
    get_purchase existing.purchase_order_id >> pure tt
receive_unless none order_id disposition allow_over lines key =
    receive_new order_id disposition allow_over lines key

-- `receive`
unfoldable pub receive_purchase :
    KeyTexts → ℕ → Disposition → Bool → List ReceiptLine → Option String → Exec (Unit {0})
receive_purchase py order_id disposition allow_over lines idempotency_key = do
  key ← clean_key py idempotency_key
  existing ← gets (λ s. known_receipt key s.receipts)
  receive_unless existing order_id disposition allow_over lines key
