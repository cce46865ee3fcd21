-- ===== src/Purchase/Service/Tests.antt =====
-- A concrete receipt.
use cross_pilot.Purchase.Service.Again.{receive_purchase-again}
use cross_pilot.Prelude.Result.{ok}
use cross_pilot.Prelude.Int.{pos, ◌+ℤ◌, ◌-ℤ◌, negate}
use cross_pilot.Prelude.{◌≡◌, refl, ap, true, false, some, [], ◌∷◌}
use cross_pilot.Purchase.{
  approved, receive, open_qty, assert_can_receive, plan_receive, all_settled, any_counted,
  next_receipt_status,
}
use cross_pilot.Purchase.Tables.{
  PurchaseOrderItem, find_purchase, update_purchase, list_for_order, find_item, update_item,
  receipt_by_key,
}
use cross_pilot.Purchase.Service.{
  KeyTexts, clean_key, get_purchase, set_purchase_status, set_item, repeats, receive_item,
  receive_line_at, insert_receipt, receive_new, receive_purchase,
}
use cross_pilot.Ledger.Exec.{Session, Exec, ◌>>=◌, for_each}
use cross_pilot.Ledger.Tables.{
  Inventory, fits, changed, update_row, find_row, get_pair, find_warehouse,
}
use cross_pilot.Ledger.Change.{
  interfere_with, interfere, why_not, update_once, apply_change, fresh_row, apply_once, flow_of,
  append_flow, has_sku, touch, after_once, commit_loop, commit_change,
}
use cross_pilot.Ledger.Direct.{found_or_new, ensure, abs, post_available, post_transit, post_stock}
use cross_pilot.Ledger.Orders.{flush_enqueue}

abbrev plain_key : KeyTexts
plain_key = record { strip = λ t. t; has_mark = λ t. false }

abbrev ordered_goods : PurchaseOrderItem
ordered_goods = record {
  id = 11;
  purchase_order_id = 5;
  sku_id = 70;
  quantity = pos 10;
  received_qty = pos 0;
  short_qty = pos 0;
}

abbrev stock_on_the_way : Inventory
stock_on_the_way = record {
  id = 1;
  sku_id = 70;
  warehouse_id = 3;
  available = pos 0;
  occupied = pos 0;
  in_transit = pos 10;
  defective = pos 0;
  safe_stock = pos 2;
  version = 0;
}

abbrev arrival_day : Session
arrival_day = record {
  inventories = stock_on_the_way ∷ [];
  warehouses = record { id = 3; is_default = true; warehouse_type = "LOCAL"; deleted = false } ∷ [];
  skus = 70 ∷ [];
  items = [];
  flows = [];
  holds = [];
  transfers = [];
  transfer_lines = [];
  takings = [];
  taking_lines = [];
  purchases = record { id = 5; warehouse_id = 3; status = approved } ∷ [];
  purchase_items = ordered_goods ∷ [];
  receipts = [];
  orders = [];
  status_logs = [];
  rules = [];
  shipments = [];
  returns = [];
  next_id = 100;
  tenant = some 1;
  touched = [];
  queue = [];
  others = [];
}

abbrev four_arrive : Exec (Unit {0})
four_arrive = receive_purchase plain_key 5 receive false ((11, pos 4) ∷ []) (some "R-1")

four_arrive_ok : (four_arrive arrival_day).0 ≡ ok tt
unfolding clean_key receive_purchase receive_new get_purchase find_purchase list_for_order
    assert_can_receive repeats has_sku receive_line_at find_item receive_item plan_receive open_qty
    set_item update_item post_stock ensure found_or_new get_pair find_warehouse post_available
    post_transit commit_change commit_loop apply_once apply_change interfere interfere_with
    update_once update_row fits changed fresh_row find_row why_not after_once append_flow flow_of
    touch flush_enqueue set_purchase_status update_purchase next_receipt_status all_settled
    any_counted insert_receipt ◌>>=◌ for_each abs receipt_by_key ◌-ℤ◌ ◌+ℤ◌ negate
four_arrive_ok = refl

four_arrive_returns : four_arrive arrival_day ≡ (ok tt, (four_arrive arrival_day).1)
four_arrive_returns = ap (λ r. (r, (four_arrive arrival_day).1)) four_arrive_ok

receive_purchase-again_example :
    (receive_purchase plain_key 5 receive true
      ((11, pos 9) ∷ [])
      (some "R-1")
      (four_arrive arrival_day).1).1
    ≡ (four_arrive arrival_day).1
receive_purchase-again_example =
    receive_purchase-again plain_key 5 5 receive receive false true ((11, pos 4) ∷ [])
      ((11, pos 9) ∷ []) "R-1" arrival_day (four_arrive arrival_day).1
      (record { filled = refl; plain = refl }) four_arrive_returns
