-- ===== src/Ledger/Returns/Keeping.antt =====
-- What the receipt of a return keeps: all that its steps on the tables keep.
use cross_pilot.Prelude.{ℕ, Option, none, some, List, [], ◌∷◌}
use cross_pilot.Ledger.Tables.{Inventory, OrderItem, Delta}
use cross_pilot.Ledger.Exec.{Session}
use cross_pilot.Ledger.Exec.Keeps.{Keeps, Keeps-if, keeps_rules}
use cross_pilot.Ledger.Change.{Note, touch, commit_change}
use cross_pilot.Ledger.Orders.{on_sku, with_sku, flush_enqueue}
use cross_pilot.Ledger.Direct.{ensure}
use cross_pilot.Stock.Allocate.{Allocation}
use cross_pilot.Stock.Push.{should_reserve_line}
use cross_pilot.Sales.Tables.{ReturnOrder}
use cross_pilot.Ledger.Returns.{
  targets_or, return_targets, restock, return_line, set_return, receive_return,
}

module _ {P : Session → Type 0}
    (ensured : (sku_id warehouse_id : ℕ) → Keeps P (ensure sku_id warehouse_id))
    (commit : (row : Inventory) (note : Note) (d : Delta) → Keeps P (commit_change row note d))
    (mark : (sku_id : ℕ) → Keeps P (touch sku_id))
    (change_return : (id : ℕ) (f : ReturnOrder → ReturnOrder) → Keeps P (set_return id f))
    (flush : Keeps P flush_enqueue) where
  targets_or-Keeps :
      (item : OrderItem) (allocs : List Allocation) → Keeps P (targets_or item allocs)
  targets_or-Keeps item (alloc ∷ allocs) = search keeps_rules
  targets_or-Keeps item [] = search keeps_rules

  return_targets-Keeps : (item : OrderItem) → Keeps P (return_targets item)
  unfolding return_targets
  return_targets-Keeps item = search (keeps_rules, targets_or-Keeps)

  restock-Keeps :
      (row : ReturnOrder) (sku_id : ℕ) (alloc : Allocation) → Keeps P (restock row sku_id alloc)
  unfolding restock
  restock-Keeps row sku_id alloc = search keeps_rules

  return_line-Keeps :
      (row : ReturnOrder) (item : OrderItem) (sku_id : ℕ) → Keeps P (return_line row item sku_id)
  unfolding return_line
  return_line-Keeps row item sku_id = search (keeps_rules, return_targets-Keeps, restock-Keeps)

  with_sku-Keeps :
      (row : ReturnOrder) (item : OrderItem) → Keeps P (with_sku item (return_line row item))
  with_sku-Keeps row item =
      Keeps-if (should_reserve_line item.sku_id item.quantity) _ _ (go item.sku_id)
        (search keeps_rules)
    where
      go : (o : Option ℕ) → Keeps P (on_sku o (return_line row item))
      go none = search keeps_rules
      go (some sku_id) = return_line-Keeps row item sku_id

  pub receive_return-Keeps : (row : ReturnOrder) → Keeps P (receive_return row)
  unfolding receive_return
  receive_return-Keeps row = search (keeps_rules, with_sku-Keeps) depth 12
