-- ===== src/Sales/Frame.antt =====
-- The ledger's methods on an order leave the orders, their lines and their logs alone.
use cross_pilot.Sales.Tables.{ReturnOrder}
use cross_pilot.Ledger.Returns.{set_return}
use cross_pilot.Ledger.Change.Keeping.{commit_change-Keeps}
use cross_pilot.Prelude.Int.{ℤ}
use cross_pilot.Prelude.{Bool-cases, ℕ, ◌≡◌, refl, ◌∙◌, inl, inr, List, [], ◌∷◌}
use cross_pilot.Ledger.Exec.{Write, Session}
use cross_pilot.Ledger.Exec.Keeps.{Keeps, Keeps-pure, Keeps-bind}
use cross_pilot.Ledger.Tables.{Inventory, InventoryHold, Delta, update_row}
use cross_pilot.Ledger.Change.{
  interfere_with, interfere, update_once, apply_change, apply_once, Note, append_flow, touch,
  commit_change,
}
use cross_pilot.Ledger.Orders.{
  insert_hold, set_hold, flush_enqueue, reserve_order, release_order, ship_order,
}
use cross_pilot.Ledger.Orders.Keeping.{orders-Keep}
use cross_pilot.Sales.Ingest.{
  StockCall, no_call, release_call, reserve_call, reserve_ship_call, ship_call, call_stock,
}

-- What a session has of orders.
pub record SameOrders (before after : Session) : Type 0 where
  pub orders : after.orders ≡ before.orders
  pub logs : after.status_logs ≡ before.status_logs
  pub items : after.items ≡ before.items
  pub next_id : after.next_id ≡ before.next_id

pub SameOrders-refl : (s : Session) → SameOrders s s
SameOrders-refl s = record { orders = refl; logs = refl; items = refl; next_id = refl }

pub same_as : (s0 s s' : Session) → SameOrders s0 s → SameOrders s s' → SameOrders s0 s'
same_as s0 s s' h k = record {
  orders = k.orders ∙ h.orders;
  logs = k.logs ∙ h.logs;
  items = k.items ∙ h.items;
  next_id = k.next_id ∙ h.next_id;
}

interfere-Same : (s : Session) → SameOrders s (interfere s)
unfolding interfere
interfere-Same s = go s.others
  where
    go : (o : List (List Write)) → SameOrders s (interfere_with o s)
    go [] = SameOrders-refl s
    go (ws ∷ rest) = record { orders = refl; logs = refl; items = refl; next_id = refl }

update_once-Same :
    (id version : ℕ) (d : Delta) (s : Session) → SameOrders s (update_once id version d s).1
unfolding update_once
update_once-Same id version d s = elim (Bool-cases (update_row id version d s.inventories).1) [
  | inl hit ↦ rw hit (record { orders = refl; logs = refl; items = refl; next_id = refl })
  | inr miss ↦ rw miss (SameOrders-refl s)
]

module _ {s0 : Session} where
  apply_once-Same : (row : Inventory) (d : Delta) → Keeps (SameOrders s0) (apply_once row d)
  unfolding apply_once apply_change
  apply_once-Same row d = record {
    at = λ s h.
        same_as s0 (interfere s) _ (same_as s0 s (interfere s) h (interfere-Same s))
          (update_once-Same row.id row.version d (interfere s));
  }

  append_flow-Same :
      (row : Inventory) (note : Note) (b a : ℤ) → Keeps (SameOrders s0) (append_flow row note b a)
  unfolding append_flow
  append_flow-Same row note b a = record {
    at = λ s h. record { orders = h.orders; logs = h.logs; items = h.items; next_id = h.next_id };
  }

  pub touch-Same : (sku_id : ℕ) → Keeps (SameOrders s0) (touch sku_id)
  unfolding touch
  touch-Same sku_id = record {
    at = λ s h. record { orders = h.orders; logs = h.logs; items = h.items; next_id = h.next_id };
  }

  insert_hold-Same : (hold : InventoryHold) → Keeps (SameOrders s0) (insert_hold hold)
  unfolding insert_hold
  insert_hold-Same hold = record {
    at = λ s h. record { orders = h.orders; logs = h.logs; items = h.items; next_id = h.next_id };
  }

  set_hold-Same :
      (item_id : ℕ) (f : InventoryHold → InventoryHold) → Keeps (SameOrders s0) (set_hold item_id f)
  unfolding set_hold
  set_hold-Same item_id f = record {
    at = λ s h. record { orders = h.orders; logs = h.logs; items = h.items; next_id = h.next_id };
  }

  pub flush_enqueue-Same : Keeps (SameOrders s0) flush_enqueue
  unfolding flush_enqueue
  flush_enqueue-Same = record {
    at = λ s h. record { orders = h.orders; logs = h.logs; items = h.items; next_id = h.next_id };
  }

  pub commit_change-Same :
      (row : Inventory) (note : Note) (d : Delta) → Keeps (SameOrders s0) (commit_change row note d)
  commit_change-Same = commit_change-Keeps apply_once-Same append_flow-Same touch-Same

  pub set_return-Same :
      (id : ℕ) (f : ReturnOrder → ReturnOrder) → Keeps (SameOrders s0) (set_return id f)
  unfolding set_return
  set_return-Same id f = record {
    at = λ s h. record { orders = h.orders; logs = h.logs; items = h.items; next_id = h.next_id };
  }

  pub orders-Same :
      (order_id : ℕ)
      → Keeps (SameOrders s0) (reserve_order order_id)
        × Keeps (SameOrders s0) (release_order order_id)
        × Keeps (SameOrders s0) (ship_order order_id)
  orders-Same =
      orders-Keep apply_once-Same append_flow-Same touch-Same insert_hold-Same set_hold-Same
        flush_enqueue-Same

  pub call_stock-Same :
      (order_id : ℕ) (call : StockCall) → Keeps (SameOrders s0) (call_stock order_id call)
  unfolding call_stock
  call_stock-Same order_id no_call = Keeps-pure tt
  call_stock-Same order_id release_call = (orders-Same order_id).1
  call_stock-Same order_id reserve_call = (orders-Same order_id).0
  call_stock-Same order_id reserve_ship_call =
      Keeps-bind (reserve_order order_id) _ (orders-Same order_id).0 (λ _. (orders-Same order_id).2)
  call_stock-Same order_id ship_call = (orders-Same order_id).2
