-- ===== src/Sales/Again.antt =====
-- Ingesting the same report again.
use cross_pilot.Prelude.Text.{String}
use cross_pilot.Prelude.Result.{ok}
use cross_pilot.Prelude.Int.{ℤ, int_laws}
use cross_pilot.Prelude.{ℕ, ◌≡◌, refl, inl, inr, Option, none, some, List}
use cross_pilot.Sales.Keeping.{review-KeepsStatus}
use cross_pilot.Ledger.Exec.{Session, gets}
use cross_pilot.Ledger.Exec.Keeps.{Keeps, Keeps-pure, Keeps-gets, Keeps-bind, keeps_rules}
use cross_pilot.Order.Status.{
  StatusChangeSource, DecisionKind, apply, unchanged, reject, same, StatusDecision,
}
use cross_pilot.Sales.Tables.{OrderKey, SalesOrder, get_by_key}
use cross_pilot.Sales.Upsert.{UnifiedOrder, set_order, stored_stamp}
use cross_pilot.Sales.Upserting.{Upserted, upsert-Upserted}
use cross_pilot.Sales.Ingest.{
  Shop, append_log, log_decision, review, apply_review, stock_call, sync_inventory, settle_row,
  ingest_order,
}
use cross_pilot.Sales.Rows.{stamp-update}
use cross_pilot.Sales.Frame.{SameOrders, SameOrders-refl, call_stock-Same}
use cross_pilot.Sales.Invariant.{OrdersOk}
use cross_pilot.Sales.Laws.{skips-cases, decide_report, ingest_order_stale, ingest_written}
use cross_pilot.Sync.Idempotency.{skip_it, TextMethods, order_idempotency_key, decide_write}
use cross_pilot.Desk.{AmountRule}

-- What is stored for the key is no older than `moment`.
pub record UpToDate (key : OrderKey) (moment : ℤ) (s : Session) : Type 0 where
  pub skips : decide_write (stored_stamp (get_by_key key s.orders)) moment ≡ skip_it

decide_write_refl : (t : ℤ) → decide_write (some t) t ≡ skip_it
unfolding decide_write
decide_write_refl t = grind int_laws

module _ {key : OrderKey} {moment : ℤ} where
  same-UpToDate :
      (s s' : Session) → UpToDate key moment s → SameOrders s s' → UpToDate key moment s'
  same-UpToDate s s' h same = record { skips = rw (same.orders) h.skips }

  apply_review-UpToDate :
      (py : TextMethods) (id : ℕ) → Keeps (UpToDate key moment) (apply_review py id)
  unfolding apply_review
  apply_review-UpToDate py id =
      Keeps-bind (gets (λ s. s.rules)) _ (Keeps-gets (λ s. s.rules)) (λ rules. reviewed rules)
    where
      reviewed :
          (rules : List AmountRule) → Keeps (UpToDate key moment) (set_order id (review py rules))
      reviewed rules =
          unfold set_order review in
          record {
            at = λ s h. record {
              skips =
                  rw
                    (stamp-update key id (review py rules) s.orders
                      (review-KeepsStatus py rules).key (λ row. refl))
                    h.skips;
            };
          }

  sync-UpToDate :
      (id : ℕ) (d : StatusDecision) (kind : DecisionKind)
      → Keeps (UpToDate key moment) (sync_inventory id d kind)
  unfolding sync_inventory
  sync-UpToDate id d apply = record {
    at = λ s h.
        let call = stock_call d.from_status d.to_status in
        same-UpToDate s _ h ((call_stock-Same id call).at s (SameOrders-refl s));
  }
  sync-UpToDate id d unchanged = Keeps-pure tt
  sync-UpToDate id d reject = Keeps-pure tt

  log-UpToDate :
      (id : ℕ) (d : StatusDecision) (source : StatusChangeSource) (kind : DecisionKind)
      → Keeps (UpToDate key moment) (log_decision id d source kind)
  unfolding log_decision append_log
  log-UpToDate id d source apply = record { at = λ s h. record { skips = h.skips } }
  log-UpToDate id d source unchanged = Keeps-pure tt
  log-UpToDate id d source reject = Keeps-pure tt

  settle-UpToDate :
      (py : TextMethods) (source : StatusChangeSource) (o : Option StatusDecision)
      (row : Option SalesOrder)
      → Keeps (UpToDate key moment) (settle_row py source o row)
  unfolding settle_row
  settle-UpToDate py source none row = Keeps-pure tt
  settle-UpToDate py source (some d) none = Keeps-pure tt
  settle-UpToDate py source (some d) (some row) =
      search (keeps_rules, log-UpToDate, apply_review-UpToDate, sync-UpToDate)

up_to_date :
    (py : TextMethods) (table : List (String × String)) (shop : Shop) (order : UnifiedOrder)
    (source : StatusChangeSource) (s : Session) (key : OrderKey)
    → OrdersOk s
    → order_idempotency_key py shop.platform_code shop.id order.platform_order_id ≡ ok key
    → UpToDate key order.updated_at (ingest_order py table shop order source s).1
up_to_date py table shop order source s key h k =
    elim (skips-cases (decide_write (stored_stamp (get_by_key key s.orders)) order.updated_at)) [
      | inl old ↦
          rw (ingest_order_stale py table shop order source s key k old) (record { skips = old })
      | inr new ↦ written (
          upsert-Upserted key order (decide_report table order source) s (get_by_key key s.orders) h
            new refl)
    ]
  where
    written :
        (u : Upserted key order (decide_report table order source) s)
        → UpToDate key order.updated_at (ingest_order py table shop order source s).1
    written u = rw (ingest_written py table shop order source s key k u) (
        (settle-UpToDate py source (some (decide_report table order source u.at))
            (get_by_key key u.after.orders)).at
          u.after (record { skips = rw (u.found, u.stamp) (decide_write_refl order.updated_at) }))

-- A report that was ingested, with whatever end, is skipped when it comes again: the session stays
-- exactly as it was, also if the mapping of statuses or the source of the report changed meanwhile.
pub ingest_order_again :
    (py : TextMethods) (table table' : List (String × String)) (shop : Shop) (order : UnifiedOrder)
    (source source' : StatusChangeSource) (s : Session) (key : OrderKey)
    → OrdersOk s
    → order_idempotency_key py shop.platform_code shop.id order.platform_order_id ≡ ok key
    → ingest_order py table' shop order source' (ingest_order py table shop order source s).1
      ≡ (ok (skip_it, none), (ingest_order py table shop order source s).1)
ingest_order_again py table table' shop order source source' s key h k =
    ingest_order_stale py table' shop order source' (ingest_order py table shop order source s).1
      key k (up_to_date py table shop order source s key h k).skips
