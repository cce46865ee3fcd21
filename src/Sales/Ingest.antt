-- ===== src/Sales/Ingest.antt =====
-- The ingestion of an order that a platform reports: `ingest_order` of
-- backend/app/services/order_status.py with what it calls.
use cross_pilot.Prelude.Text.{String}
use cross_pilot.Prelude.Result.{Result, ok, err}
use cross_pilot.Prelude.{
  if◌then◌else◌, ℕ, Bool, true, false, ◌&&◌, ◌||◌, Option, none, some, List, ◌∷◌,
}
use cross_pilot.Desk.{AmountRule, amount_needs_review, next_review_status}
use cross_pilot.Ledger.Orders.{reserve_order, release_order, ship_order}
use cross_pilot.Ledger.Exec.{value_error, Exec, pure, raise, gets, modify, ◌>>=◌, ◌>>◌}
use cross_pilot.Order.Status.{
  UnifiedStatus, pending, paid, shipped, delivered, completed, cancelled, StatusChangeSource,
  DecisionKind, apply, unchanged, reject, value, parse_unified, StatusDecision, decide_status,
  resolve_target,
}
use cross_pilot.Sales.Tables.{OrderKey, SalesOrder, get_by_key}
use cross_pilot.Sales.Upsert.{UnifiedOrder, set_order, upsert}
use cross_pilot.Sync.Idempotency.{WriteAction, KeyError, TextMethods, order_idempotency_key}

pub record Shop : Type 0 where
  pub id : ℕ
  pub platform_code : String

abbrev pub remark_of : Bool → Option String
remark_of true = some "平台状态尚未配置映射"
remark_of false = none

unfoldable pub append_log :
    ℕ → Option String → String → StatusChangeSource → Option String → Exec (Unit {0})
append_log order_id from to source remark = modify (λ s. record s {
  status_logs =
      record {
        order_id = order_id;
        from_status = from;
        to_status = to;
        source = source;
        remark = remark;
      }
      ∷ s.status_logs;
})

abbrev pub value_of : Option UnifiedStatus → Option String
value_of none = none
value_of (some s) = some (value s)

unfoldable pub log_decision :
    ℕ → StatusDecision → StatusChangeSource → DecisionKind → Exec (Unit {0})
log_decision order_id d source apply =
    append_log order_id (value_of d.from_status) (value d.to_status) source (remark_of d.unmapped)
log_decision order_id d source unchanged = pure tt
log_decision order_id d source reject = pure tt

-- `apply_review` of backend/app/services/order_desk.py
unfoldable pub review : TextMethods → List AmountRule → SalesOrder → SalesOrder
review py rules row = record row {
  review_status =
      next_review_status (some row.review_status)
        (amount_needs_review py.upper py.strip row.total_amount row.currency rules);
}

unfoldable pub apply_review : TextMethods → ℕ → Exec (Unit {0})
apply_review py order_id = do rules ← gets (λ s. s.rules); set_order order_id (review py rules)

abbrev pub lift_key : Result KeyError OrderKey → Exec OrderKey
lift_key (ok key) = pure key
lift_key (err e) = raise value_error

-- `from_status in unpaid`
abbrev pub is_unpaid : Option UnifiedStatus → Bool
is_unpaid none = true
is_unpaid (some pending) = true
is_unpaid o = false

abbrev pub is_paid : Option UnifiedStatus → Bool
is_paid (some paid) = true
is_paid o = false

-- The statuses `shipped` of `_sync_inventory`.
abbrev pub is_sent : UnifiedStatus → Bool
is_sent shipped = true
is_sent delivered = true
is_sent completed = true
is_sent s = false

abbrev pub is_cancelled : UnifiedStatus → Bool
is_cancelled cancelled = true
is_cancelled s = false

-- What `_sync_inventory` calls.
pub data StockCall : Type 0 where
  no_call release_call reserve_call reserve_ship_call ship_call : StockCall

unfoldable pub stock_call : Option UnifiedStatus → UnifiedStatus → StockCall
stock_call from to =
    if is_cancelled to && (is_unpaid from || is_paid from)
    then release_call
    else if is_paid (some to) && is_unpaid from
    then reserve_call
    else if is_sent to && is_unpaid from
    then reserve_ship_call
    else if is_sent to && is_paid from
    then ship_call
    else no_call

unfoldable pub call_stock : ℕ → StockCall → Exec (Unit {0})
call_stock order_id no_call = pure tt
call_stock order_id release_call = release_order order_id
call_stock order_id reserve_call = reserve_order order_id
call_stock order_id reserve_ship_call = reserve_order order_id >> ship_order order_id
call_stock order_id ship_call = ship_order order_id

unfoldable pub sync_inventory : ℕ → StatusDecision → DecisionKind → Exec (Unit {0})
sync_inventory order_id d apply = call_stock order_id (stock_call d.from_status d.to_status)
sync_inventory order_id d unchanged = pure tt
sync_inventory order_id d reject = pure tt

-- What is done with a row that was written.
unfoldable pub settle_row :
    TextMethods → StatusChangeSource → Option StatusDecision → Option SalesOrder → Exec (Unit {0})
settle_row py source none o = pure tt
settle_row py source (some d) none = pure tt
settle_row py source (some d) (some row) = do
  log_decision row.id d source d.kind
  apply_review py row.id
  sync_inventory row.id d d.kind

-- `ingest_order`, with the table that `mapping_table` returns for the shop's platform
unfoldable pub ingest_order :
    TextMethods
    → List (String × String)
    → Shop
    → UnifiedOrder
    → StatusChangeSource
    → Exec (WriteAction × Option StatusDecision)
ingest_order py table shop order source = do
  let target = resolve_target order.platform_status table
  key ← lift_key (order_idempotency_key py shop.platform_code shop.id order.platform_order_id)
  r ← upsert key order (λ current. decide_status (parse_unified current) target source)
  row ← gets (λ s. get_by_key key s.orders)
  settle_row py source r.1 row
  pure r
