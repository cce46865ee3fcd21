-- ===== src/Ledger/Orders/Keeping.antt =====
-- What the methods of an order keep: all that their steps on the tables keep.
use cross_pilot.Prelude.Int.{ℤ}
use cross_pilot.Prelude.{ℕ, Option, none, some, List}
use cross_pilot.Ledger.Exec.{Session, Exec}
use cross_pilot.Ledger.Exec.Keeps.{Keeps, Keeps-if, keeps_rules}
use cross_pilot.Ledger.Change.{apply_once, Note, append_flow, touch, commit_change}
use cross_pilot.Ledger.Change.Keeping.{commit_change-Keeps}
use cross_pilot.Ledger.Draw.{Mode, draw}
use cross_pilot.Ledger.Draw.Keeping.{draw-Keeps}
use cross_pilot.Ledger.Orders.{
  insert_hold, add_hold, set_hold, save_hold, on_sku, with_sku, reserve_item, flush_enqueue,
  reserve_order, release_row, release_hold, release_order, ship_entry, ship_directly, ship_with,
  ship_line, ship_order,
}
use cross_pilot.Stock.Push.{should_reserve_line}
use cross_pilot.Stock.Allocate.{Allocation}
use cross_pilot.Ledger.Tables.{
  Inventory, HoldStatus, open_hold, released, shipped, short, InventoryHold, OrderItem, Delta,
}

module _ {P : Session → Type 0} (once : (row : Inventory) (d : Delta) → Keeps P (apply_once row d))
    (flow : (row : Inventory) (note : Note) (b a : ℤ) → Keeps P (append_flow row note b a))
    (mark : (sku_id : ℕ) → Keeps P (touch sku_id))
    (new_hold : (hold : InventoryHold) → Keeps P (insert_hold hold))
    (change_hold : (item_id : ℕ) (f : InventoryHold → InventoryHold) → Keeps P (set_hold item_id f))
    (flush : Keeps P flush_enqueue) where
  add_hold-Keeps : (hold : InventoryHold) → Keeps P (add_hold hold)
  unfolding add_hold
  add_hold-Keeps hold = search (keeps_rules, new_hold)

  on_sku-Keeps :
      (o : Option ℕ) (body : ℕ → Exec (Unit {0}))
      → ((k : ℕ) → Keeps P (body k))
      → Keeps P (on_sku o body)
  on_sku-Keeps none body k = search keeps_rules
  on_sku-Keeps (some sku_id) body k = k sku_id

  with_sku-Keeps :
      (item : OrderItem) (body : ℕ → Exec (Unit {0}))
      → ((k : ℕ) → Keeps P (body k))
      → Keeps P (with_sku item body)
  with_sku-Keeps item body k =
      Keeps-if (should_reserve_line item.sku_id item.quantity) _ _ (on_sku-Keeps item.sku_id body k)
        (search keeps_rules)

  commit-Keeps : (row : Inventory) (note : Note) (d : Delta) → Keeps P (commit_change row note d)
  commit-Keeps = commit_change-Keeps once flow mark

  drawing-Keeps :
      (sku_id : ℕ) (quantity : ℤ) (mode : Mode) (order_id : ℕ)
      → Keeps P (draw sku_id quantity mode order_id)
  drawing-Keeps = draw-Keeps once flow

  ruleset orders_rules = (keeps_rules, commit-Keeps, drawing-Keeps, add_hold-Keeps, with_sku-Keeps)

  save_hold-Keeps : (o : Option InventoryHold) (hold : InventoryHold) → Keeps P (save_hold o hold)
  unfolding save_hold
  save_hold-Keeps none hold = search orders_rules
  save_hold-Keeps (some existing) hold = search orders_rules

  reserve_item-Keeps : (item : OrderItem) (sku_id : ℕ) → Keeps P (reserve_item item sku_id)
  unfolding reserve_item
  reserve_item-Keeps item sku_id = search (orders_rules, save_hold-Keeps)

  release_row-Keeps :
      (hold : InventoryHold) (alloc : Allocation) (o : Option Inventory)
      → Keeps P (release_row hold alloc o)
  unfolding release_row
  release_row-Keeps hold alloc none = search orders_rules
  release_row-Keeps hold alloc (some row) = search orders_rules

  release_hold-Keeps : (hold : InventoryHold) → Keeps P (release_hold hold)
  unfolding release_hold
  release_hold-Keeps hold = search (orders_rules, release_row-Keeps)

  ship_entry-Keeps :
      (item : OrderItem) (sku_id : ℕ) (alloc : Allocation) → Keeps P (ship_entry item sku_id alloc)
  unfolding ship_entry
  ship_entry-Keeps item sku_id alloc = search orders_rules

  ship_directly-Keeps : (item : OrderItem) (sku_id : ℕ) → Keeps P (ship_directly item sku_id)
  unfolding ship_directly
  ship_directly-Keeps item sku_id = search orders_rules

  ship_with-Keeps :
      (item : OrderItem) (sku_id : ℕ) (allocs : List Allocation) (status : HoldStatus)
      → Keeps P (ship_with item sku_id allocs status)
  unfolding ship_with
  ship_with-Keeps item sku_id allocs shipped = search orders_rules
  ship_with-Keeps item sku_id allocs open_hold = search (orders_rules, ship_entry-Keeps)
  ship_with-Keeps item sku_id allocs short = search orders_rules
  ship_with-Keeps item sku_id allocs released = ship_directly-Keeps item sku_id

  ship_line-Keeps :
      (item : OrderItem) (sku_id : ℕ) (o : Option InventoryHold) → Keeps P (ship_line item sku_id o)
  unfolding ship_line
  ship_line-Keeps item sku_id none = ship_directly-Keeps item sku_id
  ship_line-Keeps item sku_id (some hold) = ship_with-Keeps item sku_id hold.allocations hold.status

  pub orders-Keep :
      (order_id : ℕ)
      → Keeps P (reserve_order order_id)
        × Keeps P (release_order order_id)
        × Keeps P (ship_order order_id)
  unfolding reserve_order release_order ship_order
  orders-Keep order_id = (
    search (orders_rules, reserve_item-Keeps) depth 8,
    search (orders_rules, release_hold-Keeps) depth 8,
    search (orders_rules, ship_line-Keeps) depth 8,
  )
