-- ===== src/Ledger/Exec.antt =====
-- A session of the ledger: what its transaction sees of the tables, and what other transactions do
-- meanwhile. A method that raises leaves the session as it then is; the caller rolls it back.
pub mod Keeps
pub mod Yields
pub mod Runs
use cross_pilot.Purchase.Tables.{PurchaseOrder, PurchaseOrderItem, PurchaseReceipt}
use cross_pilot.Sales.Tables.{SalesOrder, OrderStatusLog, Shipment, ReturnOrder}
use cross_pilot.Desk.{AmountRule}
use cross_pilot.Prelude.Result.{Result, ok, err}
use cross_pilot.Prelude.{ℕ, Bool, true, false, Option, none, some, List, [], ◌∷◌}
use cross_pilot.Ledger.Tables.{
  Warehouse, Inventory, InventoryFlow, InventoryHold, OrderItem, StockTransfer, StockTransferLine,
  StockTaking, StockTakingLine, Delta,
}

-- The exceptions that the ledger raises: those of backend/app/core/errors.py, and the database's.
pub data LedgerError : Type 0 where
  inventory_insufficient inventory_conflict not_found param_invalid : LedgerError
  transfer_state transfer_warehouse stock_taking_state : LedgerError
  order_not_found order_state return_state platform_rejected adapter_error : LedgerError
  purchase_state receipt_invalid : LedgerError
  integrity value_error : LedgerError  -- SQLAlchemy's `IntegrityError`, Python's `ValueError`

-- An UPDATE of another transaction, of the form of `apply_change`.
pub record Write : Type 0 where
  pub id : ℕ
  pub version : ℕ
  pub delta : Delta

pub record Session : Type 0 where
  pub inventories : List Inventory
  pub warehouses : List Warehouse
  pub skus : List ℕ
  pub items : List OrderItem
  pub flows : List InventoryFlow  -- the newest first
  pub holds : List InventoryHold
  pub transfers : List StockTransfer
  pub transfer_lines : List StockTransferLine
  pub takings : List StockTaking
  pub taking_lines : List StockTakingLine
  pub purchases : List PurchaseOrder
  pub purchase_items : List PurchaseOrderItem
  pub receipts : List PurchaseReceipt
  pub orders : List SalesOrder
  pub status_logs : List OrderStatusLog  -- the newest first
  pub rules : List AmountRule
  pub shipments : List Shipment
  pub returns : List ReturnOrder
  pub next_id : ℕ  -- the ids that the generator hands out
  pub tenant : Option ℕ  -- `get_tenant_id()`
  pub touched : List ℕ  -- `self._touched`
  pub queue : List ℕ  -- the pushes that were enqueued
  pub others : List (List Write)  -- what others commit before each of the next UPDATEs

abbrev pub Exec : Type 0 → Type 0
Exec A = Session → Result LedgerError A × Session

abbrev pub pure : {A : Type 0} → A → Exec A
pure a s = (ok a, s)

abbrev pub raise : {A : Type 0} → LedgerError → Exec A
raise e s = (err e, s)

abbrev pub gets : {A : Type 0} → (Session → A) → Exec A
gets f s = (ok (f s), s)

abbrev pub modify : (Session → Session) → Exec (Unit {0})
modify f s = (ok tt, f s)

abbrev pub or_raise : {A : Type 0} → Option A → LedgerError → Exec A
or_raise none e = raise e
or_raise (some a) e = pure a

abbrev pub raise_when : Bool → LedgerError → Exec (Unit {0})
raise_when true e = raise e
raise_when false e = pure tt

abbrev pub continue : {A B : Type 0} → Result LedgerError A → (A → Exec B) → Exec B
continue (ok a) next s = next a s
continue (err e) next s = (err e, s)

infixl 10 ◌>>=◌ ◌>>◌
unfoldable pub ◌>>=◌ : {A B : Type 0} → Exec A → (A → Exec B) → Exec B
◌>>=◌ act next s = continue (act s).0 next (act s).1

abbrev pub ◌>>◌ : {A B : Type 0} → Exec A → Exec B → Exec B
act >> other = act >>= λ _. other

-- `for x in xs: body(x)`
unfoldable pub for_each : {A : Type 0} → (A → Exec (Unit {0})) → List A → Exec (Unit {0})
for_each body [] = pure tt
for_each body (x ∷ xs) = body x >> for_each body xs
