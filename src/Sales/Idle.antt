-- ===== src/Sales/Idle.antt =====
-- What the ingestion of an order does to the stock.
use cross_pilot.Sales.Upserting.{Upserted, upsert-Upserted}
use cross_pilot.Prelude.Text.{String}
use cross_pilot.Prelude.Result.{ok}
use cross_pilot.Prelude.{
  Bool-cases, ℕ, ◌≡◌, refl, ap, ◌≢◌, inl, inr, true, ◌||◌, Option, none, some, List, arith,
}
use cross_pilot.Ledger.Exec.{Session}
use cross_pilot.Ledger.Exec.Keeps.{Keeps, Keeps-pure, Keeps-bind, keeps_rules}
use cross_pilot.Ledger.Orders.{flush_enqueue, reserve_order, ship_order}
use cross_pilot.Order.Status.{
  UnifiedStatus, pending, cancelled, StatusChangeSource, DecisionKind, apply, unchanged, reject,
  same, parse_unified, allowed, StatusDecision, decide_known, decide_status, resolve_target,
}
use cross_pilot.Sales.Tables.{OrderKey, SalesOrder, get_by_key}
use cross_pilot.Sales.Upsert.{UnifiedOrder, set_order, stored_stamp}
use cross_pilot.Sales.Ingest.{
  Shop, append_log, log_decision, apply_review, is_unpaid, is_paid, is_cancelled, StockCall,
  no_call, release_call, reserve_call, reserve_ship_call, ship_call, stock_call, call_stock,
  sync_inventory, settle_row, ingest_order,
}
use cross_pilot.Sales.Invariant.{OrdersOk}
use cross_pilot.Sales.Lines.{NoSkus, orders-skipped}
use cross_pilot.Sales.Laws.{skips-cases, decide_report, ingest_order_stale, ingest_written}
use cross_pilot.Sync.Idempotency.{TextMethods, order_idempotency_key, decide_write}

-- The stock is as it was, and the order has no line with a SKU.
pub record Idle (id : ℕ) (before after : Session) : Type 0 where
  pub blank : NoSkus id after.items
  pub rows : after.inventories ≡ before.inventories
  pub flows : after.flows ≡ before.flows
  pub holds : after.holds ≡ before.holds

module _ {id : ℕ} {s0 : Session} where
  flush_enqueue-Idle : Keeps (Idle id s0) flush_enqueue
  unfolding flush_enqueue
  flush_enqueue-Idle = record {
    at = λ s h. record { blank = h.blank; rows = h.rows; flows = h.flows; holds = h.holds };
  }

  reserve_order-Idle : Keeps (Idle id s0) (reserve_order id)
  reserve_order-Idle = record {
    at = λ s h. rw ((orders-skipped id s h.blank).0) (flush_enqueue-Idle.at s h);
  }

  ship_order-Idle : Keeps (Idle id s0) (ship_order id)
  ship_order-Idle = record {
    at = λ s h. rw ((orders-skipped id s h.blank).1) (flush_enqueue-Idle.at s h);
  }

  call_stock-Idle :
      (call : StockCall) → call ≢ release_call → Keeps (Idle id s0) (call_stock id call)
  unfolding call_stock
  call_stock-Idle no_call n = Keeps-pure tt
  call_stock-Idle release_call n = absurd (n refl)
  call_stock-Idle reserve_call n = reserve_order-Idle
  call_stock-Idle reserve_ship_call n =
      Keeps-bind (reserve_order id) _ reserve_order-Idle (λ _. ship_order-Idle)
  call_stock-Idle ship_call n = ship_order-Idle

  sync-Idle :
      (d : StatusDecision) (kind : DecisionKind)
      → stock_call d.from_status d.to_status ≢ release_call
      → Keeps (Idle id s0) (sync_inventory id d kind)
  unfolding sync_inventory
  sync-Idle d apply n = call_stock-Idle (stock_call d.from_status d.to_status) n
  sync-Idle d unchanged n = Keeps-pure tt
  sync-Idle d reject n = Keeps-pure tt

  log-Idle :
      (d : StatusDecision) (source : StatusChangeSource) (kind : DecisionKind)
      → Keeps (Idle id s0) (log_decision id d source kind)
  unfolding log_decision append_log
  log-Idle d source apply = record {
    at = λ s h. record { blank = h.blank; rows = h.rows; flows = h.flows; holds = h.holds };
  }
  log-Idle d source unchanged = Keeps-pure tt
  log-Idle d source reject = Keeps-pure tt

  set_order-Idle : (f : SalesOrder → SalesOrder) → Keeps (Idle id s0) (set_order id f)
  unfolding set_order
  set_order-Idle f = record {
    at = λ s h. record { blank = h.blank; rows = h.rows; flows = h.flows; holds = h.holds };
  }

  settle-Idle :
      (py : TextMethods) (source : StatusChangeSource) (d : StatusDecision) (row : SalesOrder)
      → row.id ≡ id
      → stock_call d.from_status d.to_status ≢ release_call
      → Keeps (Idle id s0) (settle_row py source (some d) (some row))
  unfolding settle_row apply_review
  settle-Idle py source d row e n = rw e (search (keeps_rules, log-Idle, set_order-Idle, sync-Idle))

is_cancelled_iff : (t : UnifiedStatus) → is_cancelled t ≡ true → t ≡ cancelled
is_cancelled_iff t h = ground arith

releases :
    (o : Option UnifiedStatus) (t : UnifiedStatus)
    → stock_call o t ≡ release_call
    → (t ≡ cancelled) × ((is_unpaid o || is_paid o) ≡ true)
unfolding stock_call
releases o t h = ground arith

stays :
    (c : UnifiedStatus) → (c ≡ cancelled) × ((is_unpaid (some c) || is_paid (some c)) ≡ true) → ⊥
stays c h = ground arith

-- Only a report of a cancellation can release stock.
report_releases :
    (o target : Option UnifiedStatus) (source : StatusChangeSource)
    → target ≢ some cancelled
    → stock_call
        (decide_status o target source).from_status
        (decide_status o target source).to_status
      ≢ release_call
unfolding decide_status decide_known
report_releases none none source n h = absurd (cc (releases none pending h).0)
report_releases (some c) none source n h = stays c (releases (some c) c h)
report_releases none (some t) source n h = n (ap some (releases none t h).0)
report_releases (some c) (some t) source n h = elim (Bool-cases (same c t)) [
  | inl e ↦ stays c (releases (some c) c (rw e at h))
  | inr e ↦ elim (Bool-cases (allowed c t source)) [
    | inl f ↦ n (ap some (releases (some c) t (rw (e, f) at h)).0)
    | inr f ↦ stays c (releases (some c) c (rw (e, f) at h))
  ]
]

-- The ingestion of a report of anything but a cancellation changes neither a row of the stock nor a
-- hold, and writes no flow, also where the order becomes paid or shipped.
pub ingest_order-idle :
    (py : TextMethods) (table : List (String × String)) (shop : Shop) (order : UnifiedOrder)
    (source : StatusChangeSource) (s : Session) (key : OrderKey)
    → OrdersOk s
    → order_idempotency_key py shop.platform_code shop.id order.platform_order_id ≡ ok key
    → resolve_target order.platform_status table ≢ some cancelled
    → ((ingest_order py table shop order source s).1.inventories ≡ s.inventories)
      × ((ingest_order py table shop order source s).1.flows ≡ s.flows)
      × ((ingest_order py table shop order source s).1.holds ≡ s.holds)
ingest_order-idle py table shop order source s key h k n =
    elim (skips-cases (decide_write (stored_stamp (get_by_key key s.orders)) order.updated_at)) [
      | inl old ↦ rw (ingest_order_stale py table shop order source s key k old) (refl, refl, refl)
      | inr new ↦
          let u =
            upsert-Upserted key order (decide_report table order source) s (get_by_key key s.orders)
              h new refl in
          let idle = written u in (idle.rows, idle.flows, idle.holds)
    ]
  where
    written :
        (u : Upserted key order (decide_report table order source) s)
        → Idle u.row.id s (ingest_order py table shop order source s).1
    written u =
        let d = decide_report table order source u.at in
        rw (ingest_written py table shop order source s key k u, u.found)
          ((settle-Idle py source d u.row refl (
              report_releases (parse_unified u.at) (resolve_target order.platform_status table)
                source n)).at
            u.after (record { blank = u.blank; rows = u.rows; flows = u.flows; holds = u.holds }))
