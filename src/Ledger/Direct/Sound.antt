-- ===== src/Ledger/Direct/Sound.antt =====
-- Changes from outside the orders keep the constraints of the inventory table.
use cross_pilot.Ledger.Exec.{Session, gets, ◌>>=◌}
use cross_pilot.Prelude.Text.{String}
use cross_pilot.Ledger.Direct.{
  new_row, insert_row, found_or_new, ensure, AdjustKind, adjust_stock, post_available, post_transit,
  post_stock,
}
use cross_pilot.Ledger.Orders.Sound.{flush_enqueue-Keeps}
use cross_pilot.Ledger.Change.Rows.{IsSound, append-PairsApart}
use cross_pilot.Ledger.Change.Sound.{LedgerSound, commit_change-Sound}
use cross_pilot.Ledger.Tables.{Inventory, get_pair}
use cross_pilot.Ledger.Exec.Keeps.{Keeps, keeps_rules}
use cross_pilot.Prelude.Int.{ℤ}
use cross_pilot.Prelude.{All-append, ℕ, ◌≡◌, refl, Option, none, some, [], ◌∷◌, arith}

new_row-IsSound : (id sku_id warehouse_id : ℕ) → IsSound (new_row id sku_id warehouse_id)
unfolding new_row
new_row-IsSound id sku_id warehouse_id = ground arith

insert_row-Sound :
    (row : Inventory) (s : Session)
    → IsSound row
    → get_pair row.sku_id row.warehouse_id s.inventories ≡ none
    → LedgerSound s
    → LedgerSound (insert_row row s).1
unfolding insert_row
insert_row-Sound row s fine new h = record {
  rows = All-append IsSound s.inventories (row ∷ []) h.rows (fine, tt);
  apart = append-PairsApart s.inventories row h.apart new;
}

found_or_new-Sound :
    (sku_id warehouse_id : ℕ) (s : Session) (o : Option Inventory)
    → get_pair sku_id warehouse_id s.inventories ≡ o
    → LedgerSound s
    → LedgerSound (found_or_new sku_id warehouse_id o s).1
unfolding found_or_new ◌>>=◌ insert_row
found_or_new-Sound sku_id warehouse_id s (some row) e h = h
found_or_new-Sound sku_id warehouse_id s none e h =
    insert_row-Sound (new_row s.next_id sku_id warehouse_id) s
      (new_row-IsSound s.next_id sku_id warehouse_id) (unfold new_row in e) h

-- The row is inserted only where none was found.
find_or_new-Keeps :
    (sku_id warehouse_id : ℕ)
    → Keeps LedgerSound (
        gets (λ s. get_pair sku_id warehouse_id s.inventories) >>= found_or_new sku_id warehouse_id)
unfolding ◌>>=◌
find_or_new-Keeps sku_id warehouse_id = record {
  at = λ s h.
      found_or_new-Sound sku_id warehouse_id s (get_pair sku_id warehouse_id s.inventories) refl h;
}

pub ensure-Keeps : (sku_id warehouse_id : ℕ) → Keeps LedgerSound (ensure sku_id warehouse_id)
unfolding ensure
ensure-Keeps sku_id warehouse_id = search (find_or_new-Keeps, keeps_rules) depth 12

post_available-Keeps :
    (row : Inventory) (q : ℤ) (ref_type : String) (ref_id : Option ℕ)
    → Keeps LedgerSound (post_available row q ref_type ref_id)
unfolding post_available
post_available-Keeps row q ref_type ref_id = search (keeps_rules, commit_change-Sound)

post_transit-Keeps :
    (row : Inventory) (q : ℤ) (ref_type : String) (ref_id : Option ℕ)
    → Keeps LedgerSound (post_transit row q ref_type ref_id)
unfolding post_transit
post_transit-Keeps row q ref_type ref_id = search (keeps_rules, commit_change-Sound)

pub adjust_stock-Keeps :
    (sku_id warehouse_id : ℕ) (kind : AdjustKind) (quantity : ℤ) (ref_type : Option String)
    (ref_id : Option ℕ)
    → Keeps LedgerSound (adjust_stock sku_id warehouse_id kind quantity ref_type ref_id)
unfolding adjust_stock
adjust_stock-Keeps sku_id warehouse_id kind quantity ref_type ref_id =
    search (keeps_rules, ensure-Keeps, commit_change-Sound, flush_enqueue-Keeps) depth 12

pub post_stock-Keeps :
    (sku_id warehouse_id : ℕ) (available_q transit_q : ℤ) (ref_type : String) (ref_id : Option ℕ)
    → Keeps LedgerSound (post_stock sku_id warehouse_id available_q transit_q ref_type ref_id)
unfolding post_stock
post_stock-Keeps sku_id warehouse_id available_q transit_q ref_type ref_id =
    search
      (keeps_rules, ensure-Keeps, post_available-Keeps, post_transit-Keeps, flush_enqueue-Keeps)
      depth 12
