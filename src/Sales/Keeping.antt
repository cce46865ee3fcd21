-- ===== src/Sales/Keeping.antt =====
-- What is done after a row was written keeps the orders' tables as they should be.
use cross_pilot.Prelude.{◌==◌, ℕ, ◌≡◌, refl, ap, Bool, true, false, Option, none, some, List}
use cross_pilot.Ledger.Exec.{Session, Exec, gets}
use cross_pilot.Ledger.Exec.Keeps.{Keeps, Keeps-pure, Keeps-gets, Keeps-bind}
use cross_pilot.Order.Status.{DecisionKind, apply, unchanged, reject, StatusDecision}
use cross_pilot.Sales.Tables.{SalesOrder, find_order}
use cross_pilot.Sales.Upsert.{set_order, stored_status}
use cross_pilot.Sales.Ingest.{review, apply_review, stock_call, call_stock, sync_inventory}
use cross_pilot.Sales.Writing.{used-update, known-update}
use cross_pilot.Sales.Rows.{KeepsKey, after_change, find-update, IsTable-update}
use cross_pilot.Sales.Frame.{SameOrders, SameOrders-refl, call_stock-Same}
use cross_pilot.Sales.Invariant.{OrdersOk, OrdersOk-Same}
use cross_pilot.Sync.Idempotency.{TextMethods}
use cross_pilot.Desk.{AmountRule}

-- A change of a row that leaves its status too.
pub record KeepsStatus (f : SalesOrder → SalesOrder) : Type 0 where
  pub key : KeepsKey f
  pub status : (row : SalesOrder) → (f row).unified_status ≡ row.unified_status

pub set_order-Ok :
    (id : ℕ) (f : SalesOrder → SalesOrder) → KeepsStatus f → Keeps OrdersOk (set_order id f)
unfolding set_order
set_order-Ok id f k = record {
  at = λ s h. record {
    keys = IsTable-update id f s.orders k.key h.keys;
    used = used-update s.next_id id f s.orders k.key h.used;
    known = known-update id f s.orders (λ row good. rw (k.status row) good) h.known;
    logged = λ i.
        rw (find-update i id f s.orders k.key, same_status f k (id == i) (find_order i s.orders))
          (h.logged i);
  };
}
  where
    same_status :
        (f : SalesOrder → SalesOrder) (k : KeepsStatus f) (b : Bool) (o : Option SalesOrder)
        → stored_status (after_change b f o) ≡ stored_status o
    same_status f k b none = refl
    same_status f k true (some row) = ap some (k.status row)
    same_status f k false (some row) = refl

pub review-KeepsStatus :
    (py : TextMethods) (rules : List AmountRule) → KeepsStatus (review py rules)
unfolding review
review-KeepsStatus py rules = record {
  key = record { on_id = λ row. refl; on_key = λ row. refl };
  status = λ row. refl;
}

pub apply_review-Ok : (py : TextMethods) (id : ℕ) → Keeps OrdersOk (apply_review py id)
unfolding apply_review
apply_review-Ok py id =
    Keeps-bind (gets (λ s. s.rules)) _ (Keeps-gets (λ s. s.rules))
      (λ rules. set_order-Ok id (review py rules) (review-KeepsStatus py rules))

-- What leaves the orders alone keeps their tables as they should be.
pub untouched-Ok :
    {A : Type 0} (m : Exec A) → ((s0 : Session) → Keeps (SameOrders s0) m) → Keeps OrdersOk m
untouched-Ok m k = record { at = λ s h. OrdersOk-Same s (m s).1 h ((k s).at s (SameOrders-refl s)) }

pub sync_inventory-Ok :
    (id : ℕ) (d : StatusDecision) (kind : DecisionKind) → Keeps OrdersOk (sync_inventory id d kind)
unfolding sync_inventory
sync_inventory-Ok id d apply =
    let call = stock_call d.from_status d.to_status in
    untouched-Ok (call_stock id call) (λ s0. call_stock-Same {s0 = s0} id call)
sync_inventory-Ok id d unchanged = Keeps-pure tt
sync_inventory-Ok id d reject = Keeps-pure tt
