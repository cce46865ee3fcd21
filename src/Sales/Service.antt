-- ===== src/Sales/Service.antt =====
-- The methods that change orders: the ingestion, the shipping batch, and the desk.
use cross_pilot.Prelude.Text.{String}
use cross_pilot.Prelude.Result.{Result, ok, err}
use cross_pilot.Prelude.Int.{ℤ}
use cross_pilot.Prelude.{ℕ, Bool, Option, none, some, List, [], ◌∷◌}
use cross_pilot.Order.Status.{StatusChangeSource}
use cross_pilot.Ledger.Exec.{LedgerError, Session, Exec, pure, ◌>>◌}
use cross_pilot.Ledger.Exec.Keeps.{Keeps, keeps_rules}
use cross_pilot.Sales.Upsert.{UnifiedOrder}
use cross_pilot.Sales.Ingest.{Shop, ingest_order}
use cross_pilot.Sales.Ship.{ShipLine, ShipTools, raise_error, run_ship_batch, batch_ship}
use cross_pilot.Sales.Batch.{Batched, run_ship_batch-Batched}
use cross_pilot.Sales.Returns.{decide_review, create_return, transition_return}
use cross_pilot.Sales.Invariant.{OrdersOk}
use cross_pilot.Sales.Laws.{ingest_order-Ok}
use cross_pilot.Sales.Refunds.{decide_review-Ok, transition_return-Ok, create_return-Ok}
use cross_pilot.Sync.Idempotency.{TextMethods}

pub data OrderRequest : Type 0 where
  ingesting : List (String × String) → Shop → UnifiedOrder → StatusChangeSource → OrderRequest
  shipping_batch : ShipTools → ℕ → List ℕ → String → OrderRequest
  reviewing : ℕ → String → OrderRequest
  requesting : ℕ → String → ℤ → Bool → Bool → OrderRequest
  deciding : ℕ → String → OrderRequest

abbrev quietly : {A : Type 0} → Exec A → Exec (Unit {0})
quietly m = m >> pure tt

unfoldable pub handle : TextMethods → OrderRequest → Exec (Unit {0})
handle py (ingesting table shop order source) = quietly (ingest_order py table shop order source)
handle py (shipping_batch tools limit order_ids carrier) =
    quietly (batch_ship py tools limit order_ids carrier)
handle py (reviewing order_id decision) = decide_review order_id decision
handle py (requesting order_id reason refund_amount flag sellable) =
    create_return py order_id reason refund_amount flag sellable
handle py (deciding return_id action) = transition_return return_id action

batch-Ok :
    (tools : ShipTools) (carrier : String) (order_ids : List ℕ)
    → Keeps OrdersOk (run_ship_batch tools carrier order_ids)
batch-Ok tools carrier order_ids = record {
  at = λ s h.
      after (run_ship_batch tools carrier order_ids s)
        (run_ship_batch-Batched tools carrier order_ids s h);
}
  where
    after : (p : Result LedgerError (List ShipLine) × Session) → Batched order_ids p → OrdersOk p.1
    after (ok lines, s') h = h.1
    after (err e, s') h = absurd h

raise_error-Ok : (o : Option LedgerError) → Keeps OrdersOk (raise_error o)
raise_error-Ok none = search keeps_rules
raise_error-Ok (some e) = search keeps_rules

handle-Ok : (py : TextMethods) (r : OrderRequest) → Keeps OrdersOk (handle py r)
unfolding handle
handle-Ok py (ingesting table shop order source) = search (keeps_rules, ingest_order-Ok)
handle-Ok py (shipping_batch tools limit order_ids carrier) =
    unfold batch_ship in search (keeps_rules, batch-Ok, raise_error-Ok)
handle-Ok py (reviewing order_id decision) = decide_review-Ok order_id decision
handle-Ok py (requesting order_id reason refund_amount flag sellable) =
    create_return-Ok py order_id reason refund_amount flag sellable
handle-Ok py (deciding return_id action) = transition_return-Ok return_id action

-- The session after the given requests, one after the other: one that raises leaves it as it then is.
unfoldable pub day : TextMethods → List OrderRequest → Session → Session
day py [] s = s
day py (r ∷ rs) s = day py rs (handle py r s).1

-- After any reports, batches, reviews, returns and decisions on them, in any order and with any ends,
-- the orders keep their ids and their keys apart, each has one of the nine statuses, and the log of
-- each leads without a gap from no status to the one that is stored.
pub day-Ok :
    (py : TextMethods) (rs : List OrderRequest) (s : Session) → OrdersOk s → OrdersOk (day py rs s)
unfolding day
day-Ok py [] s h = h
day-Ok py (r ∷ rs) s h = day-Ok py rs (handle py r s).1 ((handle-Ok py r).at s h)
