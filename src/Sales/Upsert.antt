-- ===== src/Sales/Upsert.antt =====
-- The orders' repository: `upsert` of backend/app/repositories/order.py and what it calls. The race of
-- two transactions that insert the same order is left out.
use cross_pilot.Prelude.Int.{ℤ, pos}
use cross_pilot.Prelude.Text.{String, mem_text}
use cross_pilot.Prelude.{
  ◌==◌, if◌then◌else◌, length, ℕ, suc, ◌+◌, Bool, true, false, Option, none, some, List, [], ◌∷◌,
  ◌++◌,
}
use cross_pilot.Ledger.Exec.{Exec, pure, gets, modify, ◌>>=◌, ◌>>◌}
use cross_pilot.Order.Status.{DecisionKind, apply, value, StatusDecision}
use cross_pilot.Sales.Tables.{OrderKey, SalesOrder, get_by_key, update_order}
use cross_pilot.Sync.Idempotency.{WriteAction, insert_it, update_it, skip_it, decide_write}
use cross_pilot.Ledger.Tables.{OrderItem}

-- What `UnifiedOrder` says of an order; of its lines, the quantities.
pub record UnifiedOrder : Type 0 where
  pub platform_order_id : String
  pub platform_status : String
  pub currency : String
  pub total_amount : ℤ
  pub quantities : List ℤ
  pub updated_at : ℤ
  pub paid_at : Option ℤ

abbrev pub or_moment : Option ℤ → ℤ → ℤ
or_moment none moment = moment
or_moment (some at) moment = at

-- A stamp that is set stays.
abbrev pub stamp_once : Bool → Option ℤ → ℤ → Option ℤ
stamp_once due (some at) moment = some at
stamp_once true none moment = some moment
stamp_once false none moment = none

abbrev pub paid_or_later : List String
paid_or_later = "PAID" ∷ "SHIPPED" ∷ "DELIVERED" ∷ "COMPLETED" ∷ []

abbrev pub shipped_or_later : List String
shipped_or_later = "SHIPPED" ∷ "DELIVERED" ∷ "COMPLETED" ∷ []

abbrev pub delivered_or_later : List String
delivered_or_later = "DELIVERED" ∷ "COMPLETED" ∷ []

unfoldable pub stamp : UnifiedOrder → String → SalesOrder → SalesOrder
stamp order status row = record row {
  paid_at =
      stamp_once (mem_text status paid_or_later) row.paid_at
        (or_moment order.paid_at order.updated_at);
  shipped_at = stamp_once (mem_text status shipped_or_later) row.shipped_at order.updated_at;
  delivered_at = stamp_once (mem_text status delivered_or_later) row.delivered_at order.updated_at;
}

abbrev pub reported_or : Option ℤ → Option ℤ → Option ℤ
reported_or none old = old
reported_or (some at) old = some at

-- the columns that `_apply_status` copies
unfoldable pub copy_report : UnifiedOrder → StatusDecision → SalesOrder → SalesOrder
copy_report order decision row = record row {
  unified_status = value decision.to_status;
  currency = order.currency;
  total_amount = order.total_amount;
  platform_updated_at = some order.updated_at;
  paid_at = reported_or order.paid_at row.paid_at;
}

abbrev pub stamp_if : DecisionKind → UnifiedOrder → String → SalesOrder → SalesOrder
stamp_if apply order status row = stamp order status row
stamp_if kind order status row = row

unfoldable pub apply_status : UnifiedOrder → StatusDecision → SalesOrder → SalesOrder
unfolding copy_report stamp
apply_status order decision row =
    stamp_if decision.kind order (value decision.to_status) (copy_report order decision row)

-- the row that `_new_order` makes
unfoldable pub blank_order : ℕ → OrderKey → UnifiedOrder → StatusDecision → SalesOrder
blank_order id key order decision = record {
  id = id;
  key = key;
  unified_status = value decision.to_status;
  currency = order.currency;
  total_amount = pos 0;
  platform_updated_at = none;
  paid_at = none;
  shipped_at = none;
  delivered_at = none;
  review_status = "AUTO_PASSED";
}

unfoldable pub new_order : ℕ → OrderKey → UnifiedOrder → StatusDecision → SalesOrder
unfolding apply_status blank_order
new_order id key order decision = apply_status order decision (blank_order id key order decision)

-- the DELETE of `_replace_items`
unfoldable pub without_items : ℕ → List OrderItem → List OrderItem
without_items order_id [] = []
without_items order_id (item ∷ items) =
    let rest = without_items order_id items in
    if item.order_id == order_id then rest else item ∷ rest

-- The new lines: each has an id of its own, and none has a SKU.
unfoldable pub new_items : ℕ → ℕ → List ℤ → List OrderItem
new_items id order_id [] = []
new_items id order_id (q ∷ quantities) =
    record { id = id; order_id = order_id; sku_id = none; quantity = q }
    ∷ new_items (suc id) order_id quantities

unfoldable pub replace_items : ℕ → UnifiedOrder → Exec (Unit {0})
unfolding without_items new_items
replace_items order_id order = modify (λ s. record s {
  items = without_items order_id s.items ++ new_items s.next_id order_id order.quantities;
  next_id = s.next_id + length order.quantities;
})

unfoldable pub insert_order : SalesOrder → Exec (Unit {0})
insert_order row = modify (λ s. record s { orders = s.orders ++ row ∷ []; next_id = suc s.next_id })

unfoldable pub set_order : ℕ → (SalesOrder → SalesOrder) → Exec (Unit {0})
set_order id f = modify (λ s. record s { orders = update_order id f s.orders })

abbrev pub stored_status : Option SalesOrder → Option String
stored_status none = none
stored_status (some row) = some row.unified_status

abbrev pub stored_stamp : Option SalesOrder → Option ℤ
stored_stamp none = none
stored_stamp (some row) = row.platform_updated_at

-- The row that is written, for a decision that `resolve` made.
unfoldable pub write_order :
    OrderKey
    → UnifiedOrder
    → StatusDecision
    → Option SalesOrder
    → Exec (WriteAction × Option StatusDecision)
write_order key order decision none = do
  id ← gets (λ s. s.next_id)
  insert_order (new_order id key order decision)
  replace_items id order
  pure (insert_it, some decision)
write_order key order decision (some existing) = do
  set_order existing.id (apply_status order decision)
  replace_items existing.id order
  pure (update_it, some decision)

abbrev pub is_skip : WriteAction → Bool
is_skip skip_it = true
is_skip action = false

unfoldable pub upsert :
    OrderKey
    → UnifiedOrder
    → (Option String → StatusDecision)
    → Exec (WriteAction × Option StatusDecision)
upsert key order resolve = do
  existing ← gets (λ s. get_by_key key s.orders)
  if is_skip (decide_write (stored_stamp existing) order.updated_at)
      then pure (skip_it, none)
      else write_order key order (resolve (stored_status existing)) existing
