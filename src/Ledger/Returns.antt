-- ===== src/Ledger/Returns.antt =====
-- What a return brings back into the stock: `receive_return` and `_return_targets` of
-- backend/app/services/inventory.py, `restock_bucket` and `mark_posted` of
-- backend/app/engines/inventory.py, and `get_default` and `first_fulfillment` of
-- backend/app/repositories/inventory.py.
pub mod Keeping
pub mod Sound
use cross_pilot.Prelude.Text.{String, str_eq}
use cross_pilot.Prelude.Int.{ℤ}
use cross_pilot.Prelude.{
  ltb, ◌==◌, if◌then◌else◌, ℕ, Bool, true, false, not, ◌&&◌, Option, none, some, List, [], ◌∷◌,
}
use cross_pilot.Ledger.Tables.{
  Warehouse, return_in, InventoryHold, OrderItem, Delta, no_delta, get_for_item, list_items,
}
use cross_pilot.Ledger.Exec.{
  param_invalid, Exec, pure, gets, modify, or_raise, ◌>>=◌, ◌>>◌, for_each,
}
use cross_pilot.Ledger.Change.{Bucket, available, defective, touch, commit_change}
use cross_pilot.Ledger.Orders.{read_allocs, with_sku, flush_enqueue}
use cross_pilot.Ledger.Direct.{ensure}
use cross_pilot.Stock.Allocate.{Allocation}
use cross_pilot.Sales.Tables.{ReturnOrder}

unfoldable pub get_default : List Warehouse → Option Warehouse
get_default [] = none
get_default (w ∷ ws) = if w.is_default && not w.deleted then some w else get_default ws

-- ORDER BY is_default DESC, id ASC
unfoldable pub comes_first : Warehouse → Warehouse → Bool
comes_first a b =
    if a.is_default && not b.is_default
    then true
    else if b.is_default && not a.is_default
    then false
    else ltb a.id b.id

abbrev pub first_of : Warehouse → Option Warehouse → Warehouse
first_of a none = a
first_of a (some b) = if comes_first b a then b else a

unfoldable pub first_fulfillment : List Warehouse → Option Warehouse
unfolding comes_first
first_fulfillment [] = none
first_fulfillment (w ∷ ws) =
    let rest = first_fulfillment ws in
    if not w.deleted && not (str_eq w.warehouse_type "PLATFORM")
    then some (first_of w rest)
    else rest

abbrev pub default_or : Option Warehouse → Option Warehouse → Option Warehouse
default_or (some w) other = some w
default_or none other = other

abbrev pub allocs_of : Option InventoryHold → List Allocation
allocs_of none = []
allocs_of (some hold) = read_allocs hold.allocations

abbrev pub targets_or : OrderItem → List Allocation → Exec (List Allocation)
targets_or item (alloc ∷ allocs) = pure (alloc ∷ allocs)
targets_or item [] = do
  o ← gets (λ s. default_or (get_default s.warehouses) (first_fulfillment s.warehouses))
  w ← or_raise o param_invalid
  pure (record { warehouse_id = w.id; quantity = item.quantity } ∷ [])

unfoldable pub return_targets : OrderItem → Exec (List Allocation)
return_targets item = do
  hold ← gets (λ s. get_for_item item.id s.holds)
  targets_or item (allocs_of hold)

abbrev pub restock_bucket : Bool → Bucket
restock_bucket true = available
restock_bucket false = defective

abbrev pub restock_delta : Bool → ℤ → Delta
restock_delta true q = record no_delta { available = q }
restock_delta false q = record no_delta { defective = q }

unfoldable pub mark_posted : String → String
mark_posted status = if str_eq status "DEFERRED" then "POSTED" else status

-- One target of a line that comes back.
unfoldable pub restock : ReturnOrder → ℕ → Allocation → Exec (Unit {0})
restock row sku_id alloc = do
  balance ← ensure sku_id alloc.warehouse_id
  commit_change balance
      (record {
        flow_type = return_in;
        quantity = alloc.quantity;
        before_name = restock_bucket row.restock_sellable;
        ref_type = "RETURN";
        ref_id = some row.id;
      })
      (restock_delta row.restock_sellable alloc.quantity)
  pure tt

unfoldable pub return_line : ReturnOrder → OrderItem → ℕ → Exec (Unit {0})
return_line row item sku_id = do
  targets ← return_targets item
  for_each (restock row sku_id) targets
  touch sku_id

-- the returns with one row changed
unfoldable pub update_return : ℕ → (ReturnOrder → ReturnOrder) → List ReturnOrder → List ReturnOrder
update_return id f [] = []
update_return id f (row ∷ rows) =
    let rest = update_return id f rows in if row.id == id then f row ∷ rows else row ∷ rest

unfoldable pub set_return : ℕ → (ReturnOrder → ReturnOrder) → Exec (Unit {0})
unfolding update_return
set_return id f = modify (λ s. record s { returns = update_return id f s.returns })

unfoldable pub receive_return : ReturnOrder → Exec (Unit {0})
receive_return row = if not (str_eq row.restock_status "DEFERRED") then pure tt else (do
  items ← gets (λ s. list_items row.order_id s.items)
  for_each (λ item. with_sku item (return_line row item)) items
  set_return row.id (λ old. record old { restock_status = mark_posted row.restock_status })
  flush_enqueue)
