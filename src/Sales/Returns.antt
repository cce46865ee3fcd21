-- ===== src/Sales/Returns.antt =====
-- Reviews and returns of orders: `decide_review`, `create_return`, `transition_return`, `_order` and
-- `_move_order` of backend/app/services/order_desk.py.
use cross_pilot.Prelude.Text.{String, str_eq}
use cross_pilot.Prelude.Int.{ℤ, pos, ltb_ℤ}
use cross_pilot.Prelude.{
  ◌==◌, if◌then◌else◌, ℕ, suc, Bool, true, false, not, ◌||◌, Option, none, some, List, [], ◌∷◌,
  ◌++◌,
}
use cross_pilot.Order.Status.{
  UnifiedStatus, refunding, refunded, manual, DecisionKind, apply, value, parse_unified,
  decide_status,
}
use cross_pilot.Desk.{decide_return, restock_after_refund}
use cross_pilot.Ledger.Exec.{
  param_invalid, order_not_found, order_state, return_state, Exec, pure, gets, modify, or_raise,
  raise_when, ◌>>=◌, ◌>>◌,
}
use cross_pilot.Ledger.Returns.{set_return, receive_return}
use cross_pilot.Sales.Tables.{SalesOrder, ReturnOrder, find_order}
use cross_pilot.Sales.Upsert.{set_order}
use cross_pilot.Sales.Ingest.{append_log}
use cross_pilot.Sync.Idempotency.{TextMethods, is_blank}

-- `_order`
unfoldable pub order_or_raise : ℕ → Exec SalesOrder
order_or_raise order_id = do
  o ← gets (λ s. find_order order_id s.orders)
  or_raise o order_not_found

abbrev pub verdict : String → Option String
verdict decision =
    if str_eq decision "approve"
    then some "APPROVED"
    else if str_eq decision "reject"
    then some "REJECTED"
    else none

abbrev pub set_review : String → SalesOrder → SalesOrder
set_review status order = record order { review_status = status }

unfoldable pub decide_review : ℕ → String → Exec (Unit {0})
decide_review order_id decision = do
  order ← order_or_raise order_id
  raise_when (not (str_eq order.review_status "PENDING")) order_state
  status ← or_raise (verdict decision) param_invalid
  set_order order.id (set_review status)

unfoldable pub insert_return : ReturnOrder → Exec (Unit {0})
insert_return row =
    modify (λ s. record s { returns = s.returns ++ row ∷ []; next_id = suc s.next_id })

unfoldable pub create_return : TextMethods → ℕ → String → ℤ → Bool → Bool → Exec (Unit {0})
create_return py order_id reason refund_amount restock_flag restock_sellable = do
  order ← order_or_raise order_id
  raise_when (is_blank (py.strip reason)) param_invalid
  raise_when (ltb_ℤ refund_amount (pos 0) || ltb_ℤ order.total_amount refund_amount) param_invalid
  id ← gets (λ s. s.next_id)
  insert_return (record {
    id = id;
    order_id = order.id;
    status = "REQUESTED";
    refund_amount = refund_amount;
    restock_flag = restock_flag;
    restock_sellable = restock_sellable;
    restock_status = "NONE";
  })

abbrev pub move_to : UnifiedStatus → SalesOrder → SalesOrder
move_to target order = record order { unified_status = value target }

abbrev pub is_apply : DecisionKind → Bool
is_apply apply = true
is_apply kind = false

-- `_move_order`
unfoldable pub move_order : SalesOrder → UnifiedStatus → String → Exec (Unit {0})
move_order order target remark = do
  raise_when
      (not (
        is_apply
          (decide_status (parse_unified (some order.unified_status)) (some target) manual).kind))
      order_state
  set_order order.id (move_to target)
  append_log order.id (some order.unified_status) (value target) manual (some remark)

unfoldable pub find_return_row : ℕ → List ReturnOrder → Option ReturnOrder
find_return_row id [] = none
find_return_row id (row ∷ rows) = if row.id == id then some row else find_return_row id rows

abbrev pub deferred : ReturnOrder → ReturnOrder
deferred row = record row { restock_status = restock_after_refund row.restock_flag }

unfoldable pub refund_return : ReturnOrder → SalesOrder → Exec (Unit {0})
refund_return row order = do
  move_order order refunded "退款完成"
  set_return row.id deferred
  if row.restock_flag then receive_return (deferred row) else pure tt

-- What `action` does besides the move of the return itself.
unfoldable pub act_on_return : String → ReturnOrder → SalesOrder → Exec (Unit {0})
act_on_return action row order =
    if str_eq action "approve"
    then move_order order refunding "退货审核通过"
    else if str_eq action "refund"
    then refund_return row order
    else pure tt

abbrev pub set_return_status : String → ReturnOrder → ReturnOrder
set_return_status status row = record row { status = status }

unfoldable pub transition_return : ℕ → String → Exec (Unit {0})
transition_return return_id action = do
  o ← gets (λ s. find_return_row return_id s.returns)
  row ← or_raise o order_not_found
  next ← or_raise (decide_return row.status action) return_state
  order ← order_or_raise row.order_id
  act_on_return action row order
  set_return row.id (set_return_status next)
