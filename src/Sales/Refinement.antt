-- ===== src/Sales/Refinement.antt =====
-- The ingestion against the machine of statuses: what is stored of one order, its status and its stamp,
-- moves as the machine says.
use cross_pilot.Prelude.Text.{String}
use cross_pilot.Prelude.Result.{ok}
use cross_pilot.Prelude.Int.{ℤ}
use cross_pilot.Prelude.{
  if◌then◌else◌, All, ℕ, ◌≡◌, refl, ap, ◌∙◌, inl, inr, Option, none, some, List, [], ◌∷◌, map,
}
use cross_pilot.Order.Status.{
  UnifiedStatus, StatusChangeSource, DecisionKind, apply, unchanged, reject, value, same,
  parse_unified, StatusDecision, decide_status, resolve_target,
}
use cross_pilot.Desk.{AmountRule}
use cross_pilot.Ledger.Exec.{Session}
use cross_pilot.Ledger.Exec.Keeps.{Keeps, Keeps-pure, keeps_rules}
use cross_pilot.Sales.Tables.{OrderKey, SalesOrder, get_by_key, update_order}
use cross_pilot.Sales.Rows.{stamp-update, status-update}
use cross_pilot.Sales.Upsert.{UnifiedOrder, set_order, stored_status, stored_stamp, is_skip}
use cross_pilot.Sales.Upserting.{Upserted, upsert-Upserted}
use cross_pilot.Sales.Ingest.{
  Shop, append_log, log_decision, review, apply_review, stock_call, call_stock, sync_inventory,
  settle_row, ingest_order,
}
use cross_pilot.Sales.Frame.{SameOrders, SameOrders-refl, call_stock-Same}
use cross_pilot.Sales.Keeping.{review-KeepsStatus}
use cross_pilot.Sales.Invariant.{OrdersOk}
use cross_pilot.Sales.Laws.{
  skips-cases, decide_report, ingest_order_stale, ingest_written, ingest_order-Ok,
}
use cross_pilot.Sync.Idempotency.{TextMethods, order_idempotency_key, decide_write}

-- What one sees of an order: its status and its stamp.
pub record OrderView : Type 0 where
  pub status : Option String
  pub stamp : Option ℤ

abbrev pub view_of : Option SalesOrder → OrderView
view_of o = record { status = stored_status o; stamp = stored_stamp o }

-- A report, as the machine of statuses sees it.
pub record SeenReport : Type 0 where
  pub target : Option UnifiedStatus
  pub source : StatusChangeSource
  pub moment : ℤ

-- The machine: an older report changes nothing, another moves the status as it decides.
unfoldable pub machine_step : SeenReport → OrderView → OrderView
machine_step r v = if is_skip (decide_write v.stamp r.moment) then v else record {
  status = some (value (decide_status (parse_unified v.status) r.target r.source).to_status);
  stamp = some r.moment;
}

abbrev pub seen_report : List (String × String) → UnifiedOrder → StatusChangeSource → SeenReport
seen_report table order source = record {
  target = resolve_target order.platform_status table;
  source = source;
  moment = order.updated_at;
}

-- The order with that key is seen as `v`.
pub record SeenAs (key : OrderKey) (v : OrderView) (s : Session) : Type 0 where
  pub seen : view_of (get_by_key key s.orders) ≡ v

module _ {key : OrderKey} {v : OrderView} where
  same-SeenAs : (s s' : Session) → SeenAs key v s → SameOrders s s' → SeenAs key v s'
  same-SeenAs s s' h same = record { seen = rw (same.orders) h.seen }

  reviewed-SeenAs :
      (py : TextMethods) (id : ℕ) (rules : List AmountRule)
      → Keeps (SeenAs key v) (set_order id (review py rules))
  unfolding set_order
  reviewed-SeenAs py id rules = record { at = λ s h. record { seen = view_same s ∙ h.seen } }
    where
      view_same :
          (s : Session)
          → view_of (get_by_key key (update_order id (review py rules) s.orders))
            ≡ view_of (get_by_key key s.orders)
      view_same s =
          let k = review-KeepsStatus py rules in
          rw
            (
              status-update key id (review py rules) s.orders k.key k.status,
              stamp-update key id (review py rules) s.orders k.key (λ row. unfold review in refl),
            )
            refl

  apply_review-SeenAs : (py : TextMethods) (id : ℕ) → Keeps (SeenAs key v) (apply_review py id)
  unfolding apply_review
  apply_review-SeenAs py id = search (keeps_rules, reviewed-SeenAs)

  sync-SeenAs :
      (id : ℕ) (d : StatusDecision) (kind : DecisionKind)
      → Keeps (SeenAs key v) (sync_inventory id d kind)
  unfolding sync_inventory
  sync-SeenAs id d apply = record {
    at = λ s h.
        let call = stock_call d.from_status d.to_status in
        same-SeenAs s (call_stock id call s).1 h
          ((call_stock-Same id call).at s (SameOrders-refl s));
  }
  sync-SeenAs id d unchanged = Keeps-pure tt
  sync-SeenAs id d reject = Keeps-pure tt

  log-SeenAs :
      (id : ℕ) (d : StatusDecision) (source : StatusChangeSource) (kind : DecisionKind)
      → Keeps (SeenAs key v) (log_decision id d source kind)
  unfolding log_decision append_log
  log-SeenAs id d source apply = record { at = λ s h. record { seen = h.seen } }
  log-SeenAs id d source unchanged = Keeps-pure tt
  log-SeenAs id d source reject = Keeps-pure tt

  settle-SeenAs :
      (py : TextMethods) (source : StatusChangeSource) (o : Option StatusDecision)
      (row : Option SalesOrder)
      → Keeps (SeenAs key v) (settle_row py source o row)
  unfolding settle_row
  settle-SeenAs py source none row = Keeps-pure tt
  settle-SeenAs py source (some d) none = Keeps-pure tt
  settle-SeenAs py source (some d) (some row) =
      search (keeps_rules, log-SeenAs, apply_review-SeenAs, sync-SeenAs)

-- What is stored of a reported order after its ingestion, with whatever end, is what the machine of
-- statuses makes of what was stored before.
pub ingest_order-refines :
    (py : TextMethods) (table : List (String × String)) (shop : Shop) (order : UnifiedOrder)
    (source : StatusChangeSource) (s : Session) (key : OrderKey)
    → OrdersOk s
    → order_idempotency_key py shop.platform_code shop.id order.platform_order_id ≡ ok key
    → view_of (get_by_key key (ingest_order py table shop order source s).1.orders)
      ≡ machine_step (seen_report table order source) (view_of (get_by_key key s.orders))
unfolding machine_step
ingest_order-refines py table shop order source s key h k =
    elim (skips-cases (decide_write (stored_stamp (get_by_key key s.orders)) order.updated_at)) [
      | inl old ↦ rw (ingest_order_stale py table shop order source s key k old, old) refl
      | inr new ↦ rw new (
          written (
            upsert-Upserted key order (decide_report table order source) s (get_by_key key s.orders)
              h new refl))
    ]
  where
    written :
        (u : Upserted key order (decide_report table order source) s)
        → view_of (get_by_key key (ingest_order py table shop order source s).1.orders) ≡ record {
          status = some (
              value
                (decide_report table order source
                  (stored_status (get_by_key key s.orders))).to_status);
          stamp = some order.updated_at;
        }
    written u =
        let d = decide_report table order source u.at in
        let v : OrderView = record {
          status = some (value d.to_status);
          stamp = some order.updated_at;
        } in
        let start : SeenAs key v u.after = record {
          seen = rw (u.found, u.written.status, u.stamp) refl;
        } in
        rw (ingest_written py table shop order source s key k u, ← u.was)
          (((settle-SeenAs {key = key} {v = v} py source (some d)
              (get_by_key key u.after.orders)).at
            u.after start).seen)

-- A report that comes in, with the words of its platform as they then are, and where it comes from.
pub record Incoming : Type 0 where
  pub table : List (String × String)
  pub source : StatusChangeSource
  pub order : UnifiedOrder

abbrev pub seen_incoming : Incoming → SeenReport
seen_incoming r = seen_report r.table r.order r.source

-- Reports that come one after the other.
unfoldable pub ingest_all : TextMethods → Shop → List Incoming → Session → Session
ingest_all py shop [] s = s
ingest_all py shop (r ∷ rs) s =
    ingest_all py shop rs (ingest_order py r.table shop r.order r.source s).1

unfoldable pub machine_run : List SeenReport → OrderView → OrderView
machine_run [] v = v
machine_run (r ∷ rs) v = machine_run rs (machine_step r v)

-- After any reports of one order, by polling, by webhooks or by people in any mixture, each ingested
-- with its own words and with whatever end, its stored status and stamp are what the machine of
-- statuses makes of the reports in the order of their arrival.
pub ingest_all-refines :
    (py : TextMethods) (shop : Shop) (key : OrderKey) (rs : List Incoming) (s : Session)
    → OrdersOk s
    → All
        (λ r.
          order_idempotency_key py shop.platform_code shop.id r.order.platform_order_id ≡ ok key)
        rs
    → view_of (get_by_key key (ingest_all py shop rs s).orders)
      ≡ machine_run (map seen_incoming rs) (view_of (get_by_key key s.orders))
unfolding ingest_all machine_run
ingest_all-refines py shop key [] s h k = refl
ingest_all-refines py shop key (r ∷ rs) s h k =
    ingest_all-refines py shop key rs (ingest_order py r.table shop r.order r.source s).1
      ((ingest_order-Ok py r.table shop r.order r.source).at s h) k.1
    ∙ ap (machine_run (map seen_incoming rs))
        (ingest_order-refines py r.table shop r.order r.source s key h k.0)
