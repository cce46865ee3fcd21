-- ===== src/Ledger/Orders/Sound.antt =====
-- Orders keep the constraints of the ledger's tables, whatever other transactions do meanwhile.
use cross_pilot.Prelude.{ℕ}
use cross_pilot.Ledger.Exec.Keeps.{Keeps}
use cross_pilot.Ledger.Tables.{InventoryHold}
use cross_pilot.Ledger.Change.Sound.{LedgerSound, apply_once-Keeps, append_flow-Keeps, touch-Keeps}
use cross_pilot.Ledger.Orders.{
  insert_hold, set_hold, flush_enqueue, reserve_order, release_order, ship_order,
}
use cross_pilot.Ledger.Orders.Keeping.{orders-Keep}

insert_hold-Keeps : (hold : InventoryHold) → Keeps LedgerSound (insert_hold hold)
unfolding insert_hold
insert_hold-Keeps hold = record { at = λ s h. record { rows = h.rows; apart = h.apart } }

set_hold-Keeps :
    (item_id : ℕ) (f : InventoryHold → InventoryHold) → Keeps LedgerSound (set_hold item_id f)
unfolding set_hold
set_hold-Keeps item_id f = record { at = λ s h. record { rows = h.rows; apart = h.apart } }

pub flush_enqueue-Keeps : Keeps LedgerSound flush_enqueue
unfolding flush_enqueue
flush_enqueue-Keeps = record { at = λ s h. record { rows = h.rows; apart = h.apart } }

pub orders-Sound :
    (order_id : ℕ)
    → Keeps LedgerSound (reserve_order order_id)
      × Keeps LedgerSound (release_order order_id)
      × Keeps LedgerSound (ship_order order_id)
orders-Sound =
    orders-Keep apply_once-Keeps append_flow-Keeps touch-Keeps insert_hold-Keeps set_hold-Keeps
      flush_enqueue-Keeps
