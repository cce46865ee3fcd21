-- ===== src/Sales/Tests.antt =====
-- Concrete orders, reports and batches.
use cross_pilot.Prelude.Text.{String}
use cross_pilot.Prelude.Result.{ok}
use cross_pilot.Prelude.Int.{pos}
use cross_pilot.Prelude.{ℕ, ◌≡◌, refl, ◌≢◌, true, none, some, List, [], ◌∷◌}
use cross_pilot.Ledger.Change.{has_sku}
use cross_pilot.Order.Status.{
  cancelled, system, webhook, manual, parse_unified, decide_status, resolve_target,
}
use cross_pilot.Ledger.Exec.{Session}
use cross_pilot.Sales.Tables.{OrderKey, get_by_key, find_order, logs_for}
use cross_pilot.Sales.Upsert.{UnifiedOrder}
use cross_pilot.Sales.Ingest.{Shop, ingest_order}
use cross_pilot.Sales.Ship.{ShipTools, dedupe_ids, ship_one, run_ship_batch}
use cross_pilot.Sales.Laws.{ingest_order-Ok}
use cross_pilot.Sales.Again.{ingest_order_again}
use cross_pilot.Sales.Idle.{ingest_order-idle}
use cross_pilot.Sales.Attempts.{Attempted, ship_one-Attempted}
use cross_pilot.Sales.Batch.{Batched, run_ship_batch-Batched, IsApart, dedupe_ids-IsApart}
use cross_pilot.Sales.Invariant.{OrdersOk}
use cross_pilot.Sales.Refinement.{
  view_of, machine_step, seen_report, ingest_order-refines, Incoming, ingest_all, machine_run,
  ingest_all-refines,
}
use cross_pilot.Sales.Service.{ingesting, shipping_batch, requesting, deciding, day, day-Ok}
use cross_pilot.Sync.Idempotency.{skip_it, TextMethods, order_idempotency_key, decide_write}

abbrev plain_texts : TextMethods
plain_texts = record { strip = λ t. t; lower = λ t. t; upper = λ t. t }

abbrev tiktok_shop : Shop
tiktok_shop = record { id = 4; platform_code = "tiktok" }

abbrev words : List (String × String)
words = ("AWAITING_SHIPMENT", "PAID") ∷ ("IN_TRANSIT", "SHIPPED") ∷ []

abbrev paid_report : UnifiedOrder
paid_report = record {
  platform_order_id = "A-77";
  platform_status = "AWAITING_SHIPMENT";
  currency = "USD";
  total_amount = pos 25;
  quantities = pos 2 ∷ pos 1 ∷ [];
  updated_at = pos 1000;
  paid_at = some (pos 990);
}

abbrev sent_report : UnifiedOrder
sent_report = record paid_report { platform_status = "IN_TRANSIT"; updated_at = pos 2000 }

abbrev its_key : OrderKey
its_key = record { platform = "tiktok"; shop_id = 4; platform_order_id = "A-77" }

abbrev new_shop_day : Session
new_shop_day = record {
  inventories = [];
  warehouses = [];
  skus = [];
  items = [];
  flows = [];
  holds = [];
  transfers = [];
  transfer_lines = [];
  takings = [];
  taking_lines = [];
  purchases = [];
  purchase_items = [];
  receipts = [];
  orders = [];
  status_logs = [];
  rules = [];
  shipments = [];
  returns = [];
  next_id = 100;
  tenant = some 1;
  touched = [];
  queue = [];
  others = [];
}

new_shop_day-Ok : OrdersOk new_shop_day
unfolding find_order logs_for
new_shop_day-Ok = record { keys = tt; used = tt; known = tt; logged = λ id. refl }

-- the session with one paid order
abbrev paid_day : Session
paid_day = (ingest_order plain_texts words tiktok_shop paid_report webhook new_shop_day).1

paid_day-Ok : OrdersOk paid_day
paid_day-Ok =
    (ingest_order-Ok plain_texts words tiktok_shop paid_report webhook).at new_shop_day
      new_shop_day-Ok

keyed : order_idempotency_key plain_texts "tiktok" 4 "A-77" ≡ ok its_key
unfolding order_idempotency_key
keyed = refl

abbrev carrier_tools : ShipTools
carrier_tools = record {
  push = λ target carrier tracking_no. none;
  tracking_for = λ order_id attempt. "CP100A1";
  remark_for = λ carrier tracking_no. "DHL CP100A1";
  now = pos 1500;
}

-- The order is stored as paid, under the first id.
stored_paid :
    view_of (get_by_key its_key paid_day.orders)
    ≡ record { status = some "PAID"; stamp = some (pos 1000) }
unfolding get_by_key machine_step decide_write decide_status parse_unified resolve_target
stored_paid =
    ingest_order-refines plain_texts words tiktok_shop paid_report webhook new_shop_day its_key
      new_shop_day-Ok keyed

day-Ok_example : OrdersOk (
    day plain_texts
      (ingesting words tiktok_shop paid_report webhook
        ∷ shipping_batch carrier_tools 50 (100 ∷ []) "DHL"
        ∷ requesting 100 "broken" (pos 25) true true
        ∷ deciding 103 "approve"
        ∷ [])
      new_shop_day)
day-Ok_example =
    day-Ok plain_texts
      (ingesting words tiktok_shop paid_report webhook
        ∷ shipping_batch carrier_tools 50 (100 ∷ []) "DHL"
        ∷ requesting 100 "broken" (pos 25) true true
        ∷ deciding 103 "approve"
        ∷ [])
      new_shop_day new_shop_day-Ok

-- A webhook, a poll and the webhook again.
abbrev mixed_reports : List Incoming
mixed_reports =
    record { table = words; source = webhook; order = paid_report }
    ∷ record { table = words; source = system; order = sent_report }
    ∷ record { table = []; source = webhook; order = paid_report }
    ∷ []

ingest_all-refines_example :
    view_of
      (get_by_key its_key (ingest_all plain_texts tiktok_shop mixed_reports new_shop_day).orders)
    ≡ machine_run
        (seen_report words paid_report webhook
          ∷ seen_report words sent_report system
          ∷ seen_report [] paid_report webhook
          ∷ [])
        (record { status = none; stamp = none })
unfolding get_by_key
ingest_all-refines_example =
    ingest_all-refines plain_texts tiktok_shop its_key mixed_reports new_shop_day new_shop_day-Ok
      (keyed, (keyed, (keyed, tt)))

ingest_order_again_example :
    ingest_order plain_texts words tiktok_shop paid_report manual paid_day
    ≡ (ok (skip_it, none), paid_day)
ingest_order_again_example =
    ingest_order_again plain_texts words words tiktok_shop paid_report webhook manual new_shop_day
      its_key new_shop_day-Ok keyed

ship_one-Attempted_example : Attempted 100 paid_day (ship_one carrier_tools "DHL" 100 paid_day)
ship_one-Attempted_example = ship_one-Attempted carrier_tools "DHL" 100 paid_day paid_day-Ok

run_ship_batch-Batched_example :
    Batched (100 ∷ 7 ∷ []) (run_ship_batch carrier_tools "DHL" (100 ∷ 7 ∷ []) paid_day)
run_ship_batch-Batched_example =
    run_ship_batch-Batched carrier_tools "DHL" (100 ∷ 7 ∷ []) paid_day paid_day-Ok

dedupe_ids-IsApart_example :
    IsApart (dedupe_ids (3 ∷ 1 ∷ 3 ∷ []))
    × ((id : ℕ) → has_sku id (dedupe_ids (3 ∷ 1 ∷ 3 ∷ [])) ≡ has_sku id (3 ∷ 1 ∷ 3 ∷ []))
dedupe_ids-IsApart_example = dedupe_ids-IsApart (3 ∷ 1 ∷ 3 ∷ [])

not_cancelled : resolve_target "IN_TRANSIT" words ≢ some cancelled
unfolding resolve_target parse_unified
not_cancelled e = absurd (cc e)

ingest_order-idle_example :
    ((ingest_order plain_texts words tiktok_shop sent_report webhook paid_day).1.inventories
      ≡ paid_day.inventories)
    × ((ingest_order plain_texts words tiktok_shop sent_report webhook paid_day).1.flows
        ≡ paid_day.flows)
    × ((ingest_order plain_texts words tiktok_shop sent_report webhook paid_day).1.holds
        ≡ paid_day.holds)
ingest_order-idle_example =
    ingest_order-idle plain_texts words tiktok_shop sent_report webhook paid_day its_key paid_day-Ok
      keyed not_cancelled
