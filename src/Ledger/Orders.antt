-- ===== src/Ledger/Orders.antt =====
-- What orders do to the ledger: `reserve_order`, `release_order` and `ship_order` of
-- backend/app/services/inventory.py.
pub mod Keeping
pub mod Sound
use cross_pilot.Prelude.Int.{ℤ, pos, ◌-ℤ◌, negate, ltb_ℤ}
use cross_pilot.Prelude.{
  ◌==◌, if◌then◌else◌, ℕ, Bool, true, false, not, Option, none, some, List, [], ◌∷◌, ◌++◌,
}
use cross_pilot.Ledger.Draw.{reserve_mode, outbound_mode, draw}
use cross_pilot.Ledger.Tables.{
  Inventory, release, ship, HoldStatus, open_hold, released, shipped, short, InventoryHold,
  OrderItem, no_delta, get_pair, get_for_item, holds_for_order, list_items,
}
use cross_pilot.Ledger.Exec.{
  not_found, integrity, Exec, pure, gets, modify, or_raise, raise_when, ◌>>=◌, ◌>>◌, for_each,
}
use cross_pilot.Ledger.Change.{available, occupied, touch, commit_change}
use cross_pilot.Stock.Allocate.{Allocation}
use cross_pilot.Stock.Allocate.Laws.{total}
use cross_pilot.Stock.Push.{should_reserve_line}

abbrev pub is_some {ℓ} : {A : Type ℓ} → Option A → Bool
is_some none = false
is_some (some a) = true

abbrev pub is_status : HoldStatus → HoldStatus → Bool
is_status open_hold open_hold = true
is_status released released = true
is_status shipped shipped = true
is_status short short = true
is_status a b = false

-- the holds with the line's one changed
unfoldable pub update_hold :
    ℕ → (InventoryHold → InventoryHold) → List InventoryHold → List InventoryHold
update_hold item_id f [] = []
update_hold item_id f (hold ∷ holds) =
    let rest = update_hold item_id f holds in
    if hold.order_item_id == item_id then f hold ∷ holds else hold ∷ rest

-- `_read_allocs`; `_alloc_maps` is its inverse on the entries of a plan
unfoldable pub read_allocs : List Allocation → List Allocation
read_allocs [] = []
read_allocs (alloc ∷ allocs) =
    let rest = read_allocs allocs in if ltb_ℤ (pos 0) alloc.quantity then alloc ∷ rest else rest

-- what `_flush_enqueue` hands over
abbrev pub pushes_of : Option ℕ → List ℕ → List ℕ
pushes_of none skus = []
pushes_of (some tenant_id) skus = skus

-- A hold's quantity, `sum(piece.quantity for piece in taken)`, is `total`.
unfoldable pub hold_of : OrderItem → ℕ → List Allocation → ℤ → HoldStatus → InventoryHold
hold_of item sku_id taken short_qty status = record {
  order_id = item.order_id;
  order_item_id = item.id;
  sku_id = sku_id;
  quantity = total taken;
  short_qty = short_qty;
  allocations = taken;
  status = status;
}

unfoldable pub insert_hold : InventoryHold → Exec (Unit {0})
insert_hold hold = modify (λ s. record s { holds = s.holds ++ hold ∷ [] })

-- `session.add` of a hold: the table has a unique index on the order's line.
unfoldable pub add_hold : InventoryHold → Exec (Unit {0})
add_hold hold = do
  known ← gets (λ s. get_for_item hold.order_item_id s.holds)
  raise_when (is_some known) integrity
  insert_hold hold

-- Attributes of the hold of one order's line are set.
unfoldable pub set_hold : ℕ → (InventoryHold → InventoryHold) → Exec (Unit {0})
unfolding update_hold
set_hold item_id f = modify (λ s. record s { holds = update_hold item_id f s.holds })

-- `existing is not None and existing.status in _OPEN_OR_DONE`
abbrev pub is_open_or_done : Option InventoryHold → Bool
is_open_or_done none = false
is_open_or_done (some hold) = not (is_status hold.status short)

abbrev pub reserve_status : List Allocation → HoldStatus
reserve_status [] = short
reserve_status (piece ∷ taken) = open_hold

unfoldable pub save_hold : Option InventoryHold → InventoryHold → Exec (Unit {0})
save_hold none hold = add_hold hold
save_hold (some existing) hold = set_hold existing.order_item_id (λ old. record old {
  quantity = hold.quantity;
  short_qty = hold.short_qty;
  allocations = hold.allocations;
  status = hold.status;
})

abbrev pub on_sku : Option ℕ → (ℕ → Exec (Unit {0})) → Exec (Unit {0})
on_sku none body = pure tt
on_sku (some sku_id) body = body sku_id

-- The loops over an order's lines start with the same guard.
abbrev pub with_sku : OrderItem → (ℕ → Exec (Unit {0})) → Exec (Unit {0})
with_sku item body =
    if should_reserve_line item.sku_id item.quantity then on_sku item.sku_id body else pure tt

unfoldable pub reserve_item : OrderItem → ℕ → Exec (Unit {0})
reserve_item item sku_id = do
  existing ← gets (λ s. get_for_item item.id s.holds)
  if is_open_or_done existing then pure tt else (do
    (taken, left) ← draw sku_id item.quantity reserve_mode item.order_id
    save_hold existing (hold_of item sku_id taken left (reserve_status taken))
    touch sku_id)

-- `_flush_enqueue`: the pushes are handed over, and a failure to do so is swallowed.
unfoldable pub flush_enqueue : Exec (Unit {0})
flush_enqueue =
    modify (λ s. record s { touched = []; queue = pushes_of s.tenant s.touched ++ s.queue })

unfoldable pub reserve_order : ℕ → Exec (Unit {0})
reserve_order order_id = do
  items ← gets (λ s. list_items order_id s.items)
  for_each (λ item. with_sku item (reserve_item item)) items
  flush_enqueue

-- One entry of a hold that is released: a missing row is passed over.
unfoldable pub release_row : InventoryHold → Allocation → Option Inventory → Exec (Unit {0})
release_row hold alloc none = pure tt
release_row hold alloc (some row) = do
  commit_change row
      (record {
        flow_type = release;
        quantity = alloc.quantity;
        before_name = occupied;
        ref_type = "ORDER";
        ref_id = some hold.order_id;
      })
      (record no_delta { occupied = negate alloc.quantity })
  pure tt

unfoldable pub release_hold : InventoryHold → Exec (Unit {0})
release_hold hold = do
  for_each
      (λ alloc.
        gets (λ s. get_pair hold.sku_id alloc.warehouse_id s.inventories)
        >>= release_row hold alloc)
      (read_allocs hold.allocations)
  set_hold hold.order_item_id (λ old. record old { status = released })
  touch hold.sku_id

unfoldable pub release_order : ℕ → Exec (Unit {0})
release_order order_id = do
  holds ← gets (λ s. holds_for_order order_id s.holds)
  for_each (λ hold. if is_status hold.status open_hold then release_hold hold else pure tt) holds
  flush_enqueue

-- One entry of a hold that is shipped: a missing row is an error.
unfoldable pub ship_entry : OrderItem → ℕ → Allocation → Exec (Unit {0})
ship_entry item sku_id alloc = do
  o ← gets (λ s. get_pair sku_id alloc.warehouse_id s.inventories)
  row ← or_raise o not_found
  commit_change row
      (record {
        flow_type = ship;
        quantity = alloc.quantity;
        before_name = available;
        ref_type = "ORDER";
        ref_id = some item.order_id;
      })
      (record no_delta { available = negate alloc.quantity; occupied = negate alloc.quantity })
  pure tt

-- No hold, or one that was released: the goods are taken directly.
unfoldable pub ship_directly : OrderItem → ℕ → Exec (Unit {0})
ship_directly item sku_id = do
  (taken, left) ← draw sku_id item.quantity outbound_mode item.order_id
  add_hold (hold_of item sku_id taken (item.quantity -ℤ total taken) shipped)
  touch sku_id

unfoldable pub ship_with : OrderItem → ℕ → List Allocation → HoldStatus → Exec (Unit {0})
ship_with item sku_id allocs shipped = pure tt
ship_with item sku_id allocs open_hold = do
  for_each (ship_entry item sku_id) (read_allocs allocs)
  set_hold item.id (λ old. record old { status = shipped })
  touch sku_id
ship_with item sku_id allocs short = set_hold item.id (λ old. record old { status = shipped })
ship_with item sku_id allocs released = ship_directly item sku_id

unfoldable pub ship_line : OrderItem → ℕ → Option InventoryHold → Exec (Unit {0})
ship_line item sku_id none = ship_directly item sku_id
ship_line item sku_id (some hold) = ship_with item sku_id hold.allocations hold.status

unfoldable pub ship_order : ℕ → Exec (Unit {0})
ship_order order_id = do
  items ← gets (λ s. list_items order_id s.items)
  for_each
      (λ item.
        with_sku item
          (λ sku_id. gets (λ s. get_for_item item.id s.holds) >>= ship_line item sku_id))
      items
  flush_enqueue
