-- ===== src/Sales/Laws.antt =====
-- Ingesting an order, from its report to its stored row.
use cross_pilot.Ledger.Exec.Keeps.{Keeps, Keeps-bind}
use cross_pilot.Sales.Invariant.{OrdersOk, decide-Continues, log-Ok}
use cross_pilot.Ledger.Exec.Runs.{run_ok}
use cross_pilot.Sales.Upserting.{Upserted, upsert_skips, upsert-Upserted}
use cross_pilot.Sales.Keeping.{apply_review-Ok, sync_inventory-Ok}
use cross_pilot.Prelude.Result.{Result, ok, err}
use cross_pilot.Prelude.Text.{String}
use cross_pilot.Prelude.{ℕ, ◌≡◌, refl, ap, ◌∙◌, ◌⊎◌, inl, inr, false, Option, none, some, List}
use cross_pilot.Ledger.Exec.{LedgerError, Session, Exec, pure, continue, ◌>>=◌, ◌>>◌}
use cross_pilot.Order.Status.{
  StatusChangeSource, DecisionKind, apply, unchanged, reject, parse_unified, StatusDecision,
  decide_status, resolve_target,
}
use cross_pilot.Sales.Tables.{OrderKey, SalesOrder, get_by_key}
use cross_pilot.Sales.Upsert.{UnifiedOrder, stored_stamp, is_skip, upsert}
use cross_pilot.Sales.Ingest.{
  Shop, append_log, log_decision, apply_review, sync_inventory, settle_row, ingest_order,
}
use cross_pilot.Sync.Idempotency.{
  WriteAction, insert_it, update_it, skip_it, KeyError, TextMethods, order_idempotency_key,
  decide_write,
}

pub skips-cases : (a : WriteAction) → (a ≡ skip_it) ⊎ (is_skip a ≡ false)
skips-cases insert_it = inr refl
skips-cases update_it = inr refl
skips-cases skip_it = inl refl

-- The decision on a report.
abbrev pub decide_report :
    List (String × String) → UnifiedOrder → StatusChangeSource → Option String → StatusDecision
decide_report table order source current =
    decide_status (parse_unified current) (resolve_target order.platform_status table) source

ingest_keyed :
    (py : TextMethods) (table : List (String × String)) (shop : Shop) (order : UnifiedOrder)
    (source : StatusChangeSource) (s : Session) (key : OrderKey)
    (r : WriteAction × Option StatusDecision) (s' : Session)
    → order_idempotency_key py shop.platform_code shop.id order.platform_order_id ≡ ok key
    → upsert key order (decide_report table order source) s ≡ (ok r, s')
    → ingest_order py table shop order source s
      ≡ (settle_row py source r.1 (get_by_key key s'.orders) >> pure r) s'
unfolding ingest_order ◌>>=◌
ingest_keyed py table shop order source s key r s' k run = rw (k, run) refl

-- A report that is no newer than what is stored changes nothing.
pub ingest_order_stale :
    (py : TextMethods) (table : List (String × String)) (shop : Shop) (order : UnifiedOrder)
    (source : StatusChangeSource) (s : Session) (key : OrderKey)
    → order_idempotency_key py shop.platform_code shop.id order.platform_order_id ≡ ok key
    → decide_write (stored_stamp (get_by_key key s.orders)) order.updated_at ≡ skip_it
    → ingest_order py table shop order source s ≡ (ok (skip_it, none), s)
unfolding settle_row ◌>>=◌
ingest_order_stale py table shop order source s key k old =
    ingest_keyed py table shop order source s key (skip_it, none) s k
      (upsert_skips key order (decide_report table order source) s old)

-- Returning a value at the end leaves the session as it is.
ends : {A B : Type 0} (m : Exec A) (b : B) (s : Session) → ((m >> pure b) s).1 ≡ (m s).1
unfolding ◌>>=◌
ends {A = A} {B = B} m b s = go (m s)
  where
    go : (p : Result LedgerError A × Session) → (continue p.0 (λ _. pure b) p.1).1 ≡ p.1
    go (ok a, s') = refl
    go (err e, s') = refl

-- The session after a report that was written.
pub ingest_written :
    (py : TextMethods) (table : List (String × String)) (shop : Shop) (order : UnifiedOrder)
    (source : StatusChangeSource) (s : Session) (key : OrderKey)
    → order_idempotency_key py shop.platform_code shop.id order.platform_order_id ≡ ok key
    → (u : Upserted key order (decide_report table order source) s)
    → (ingest_order py table shop order source s).1
      ≡ (settle_row py source
          (some (decide_report table order source u.at))
          (get_by_key key u.after.orders)
          u.after).1
ingest_written py table shop order source s key k u =
    ap (λ p. p.1)
      (ingest_keyed py table shop order source s key
        (u.action, some (decide_report table order source u.at)) u.after k u.run)
    ∙ ends (settle_row py source (some d) (get_by_key key u.after.orders)) (u.action, some d)
        u.after
  where
    d : StatusDecision
    d = decide_report table order source u.at

settle_logs :
    (py : TextMethods) (source : StatusChangeSource) (d : StatusDecision) (row : SalesOrder)
    (s : Session)
    → (settle_row py source (some d) (some row) s)
      ≡ (apply_review py row.id >> sync_inventory row.id d d.kind)
          (log_decision row.id d source d.kind s).1
unfolding settle_row
settle_logs py source d row s = run_ok (log_decision row.id d source d.kind) _ s _ tt (logs d.kind)
  where
    logs :
        (kind : DecisionKind)
        → log_decision row.id d source kind s ≡ (ok tt, (log_decision row.id d source kind s).1)
    logs apply = unfold log_decision append_log in refl
    logs unchanged = unfold log_decision in refl
    logs reject = unfold log_decision in refl

rest-Ok :
    (py : TextMethods) (id : ℕ) (d : StatusDecision)
    → Keeps OrdersOk (apply_review py id >> sync_inventory id d d.kind)
rest-Ok py id d =
    Keeps-bind (apply_review py id) _ (apply_review-Ok py id) (λ _. sync_inventory-Ok id d d.kind)

written-Ok :
    (py : TextMethods) (table : List (String × String)) (shop : Shop) (order : UnifiedOrder)
    (source : StatusChangeSource) (s : Session) (key : OrderKey)
    → order_idempotency_key py shop.platform_code shop.id order.platform_order_id ≡ ok key
    → Upserted key order (decide_report table order source) s
    → OrdersOk (ingest_order py table shop order source s).1
written-Ok py table shop order source s key k u =
    let d = decide_report table order source u.at in
    rw
      (
        ingest_written py table shop order source s key k u,
        u.found,
        settle_logs py source d u.row u.after,
      )
      ((rest-Ok py u.row.id d).at _ (
        log-Ok u.row u.at d u.after source d.kind u.written
          (decide-Continues u.at (resolve_target order.platform_status table) source u.known_at)))

-- Whatever a platform reports, and whether its ingestion ends well or with an exception of the
-- ledger, the orders keep their keys apart, each has one of the nine statuses, and the log of each
-- leads without a gap from no status to the one that is stored.
pub ingest_order-Ok :
    (py : TextMethods) (table : List (String × String)) (shop : Shop) (order : UnifiedOrder)
    (source : StatusChangeSource)
    → Keeps OrdersOk (ingest_order py table shop order source)
ingest_order-Ok py table shop order source = record {
  at = λ s h.
      go s h (order_idempotency_key py shop.platform_code shop.id order.platform_order_id) refl;
}
  where
    go :
        (s : Session) (h : OrdersOk s) (r : Result KeyError OrderKey)
        → order_idempotency_key py shop.platform_code shop.id order.platform_order_id ≡ r
        → OrdersOk (ingest_order py table shop order source s).1
    go s h (err e) k = unfold ingest_order ◌>>=◌ in rw k h
    go s h (ok key) k =
        elim (skips-cases
          (decide_write (stored_stamp (get_by_key key s.orders)) order.updated_at)) [
            | inl old ↦ rw (ingest_order_stale py table shop order source s key k old) h
            | inr new ↦ written-Ok py table shop order source s key k (
                upsert-Upserted key order (decide_report table order source) s
                  (get_by_key key s.orders) h new refl)
          ]
