-- ===== src/Ledger/Tests.antt =====
-- The ledger on a concrete row.
use cross_pilot.Ledger.Service.{reserving, perform, perform-Keeps}
use cross_pilot.Ledger.Draw.{
  bins_of, row_of, reserve_mode, take_entry, draw_entry, take_plan, draw_planned, draw_loop, draw,
}
use cross_pilot.Ledger.Draw.Drawing.{draw_adds_up}
use cross_pilot.Stock.Allocate.Laws.{total}
use cross_pilot.Stock.Allocate.{Allocation, insert_bin, sort_bins, choose, plan_allocations}
use cross_pilot.Prelude.{ℕ, ◌≡◌, refl, true, false, some, List, [], ◌∷◌}
use cross_pilot.Ledger.Tables.{
  Warehouse, Inventory, release, OrderItem, Delta, no_delta, fits, changed, update_row, find_row,
  find_warehouse, list_for_sku,
}
use cross_pilot.Ledger.Exec.{inventory_conflict, Write, Session, ◌>>=◌}
use cross_pilot.Ledger.Exec.Keeps.{Keeps}
use cross_pilot.Ledger.Change.{
  write_all, interfere_with, interfere, why_not, update_once, apply_change, fresh_row, apply_once,
  occupied, Note, append_flow, after_once, commit_loop, commit_change,
}
use cross_pilot.Ledger.Change.Sound.{LedgerSound}
use cross_pilot.Ledger.Change.Decided.{Decides, commit_change-Decides}
use cross_pilot.Ledger.Change.Contention.{Contended, commit_change-Contended}
use cross_pilot.Ledger.Draw.Flows.{WrittenBlank, draw-Blank}
use cross_pilot.Prelude.Result.{ok, err}
use cross_pilot.Prelude.Int.{pos, negsuc, ◌+ℤ◌, ◌-ℤ◌, ◌≤ℤ◌}

abbrev shelf_row : Inventory
shelf_row = record {
  id = 1;
  sku_id = 70;
  warehouse_id = 5;
  available = pos 10;
  occupied = pos 4;
  in_transit = pos 0;
  defective = pos 0;
  safe_stock = pos 2;
  version = 7;
}

abbrev depot : Warehouse
depot = record { id = 5; is_default = true; warehouse_type = "LOCAL"; deleted = false }

abbrev bought : OrderItem
bought = record { id = 31; order_id = 3; sku_id = some 70; quantity = pos 8 }

abbrev quiet_day : Session
quiet_day = record {
  inventories = shelf_row ∷ [];
  warehouses = depot ∷ [];
  skus = 70 ∷ [];
  items = bought ∷ [];
  flows = [];
  holds = [];
  transfers = [];
  transfer_lines = [];
  takings = [];
  taking_lines = [];
  purchases = [];
  purchase_items = [];
  receipts = [];
  orders = [];
  status_logs = [];
  rules = [];
  shipments = [];
  returns = [];
  next_id = 100;
  tenant = some 1;
  touched = [];
  queue = [];
  others = [];
}

abbrev to_release : Note
to_release = record {
  flow_type = release;
  quantity = pos 4;
  before_name = occupied;
  ref_type = "ORDER";
  ref_id = some 3;
}

abbrev four_less : Delta
four_less = record no_delta { occupied = negsuc 3 }

commit_change-Decides_example : Decides shelf_row shelf_row to_release four_less quiet_day
unfolding find_row
commit_change-Decides_example =
    commit_change-Decides shelf_row shelf_row to_release four_less quiet_day refl refl (λ e. refl)

-- The one row is changed by others before each UPDATE.
abbrev bump : ℕ → List Write
bump version = record { id = 1; version = version; delta = no_delta } ∷ []

abbrev busy_day : Session
busy_day = record quiet_day { others = bump 7 ∷ bump 8 ∷ bump 9 ∷ bump 10 ∷ bump 11 ∷ [] }

busy_conflict : (commit_change shelf_row to_release four_less busy_day).0 ≡ err inventory_conflict
unfolding commit_change commit_loop ◌>>=◌ apply_once apply_change interfere interfere_with write_all
    update_once update_row why_not fresh_row find_row fits changed after_once ◌+ℤ◌
busy_conflict = refl

commit_change-Contended_example : Contended 5 1 busy_day
unfolding find_row
commit_change-Contended_example =
    commit_change-Contended shelf_row to_release four_less busy_day refl busy_conflict

perform-Keeps_example : Keeps LedgerSound (perform (reserving 3))
perform-Keeps_example = perform-Keeps (reserving 3)

draw-Blank_example : WrittenBlank [] (draw 70 (pos 8) reserve_mode 3 quiet_day).1
draw-Blank_example = draw-Blank 70 (pos 8) reserve_mode 3 quiet_day

abbrev six_pieces : List Allocation
six_pieces = record { warehouse_id = 5; quantity = pos 6 } ∷ []

draws_six :
    draw 70 (pos 8) reserve_mode 3 quiet_day
    ≡ (ok (six_pieces, pos 2), (draw 70 (pos 8) reserve_mode 3 quiet_day).1)
unfolding draw draw_loop draw_planned take_plan draw_entry take_entry row_of bins_of list_for_sku
    find_warehouse plan_allocations choose sort_bins insert_bin ◌>>=◌ apply_once apply_change
    interfere interfere_with update_once update_row fresh_row find_row fits changed append_flow ◌+ℤ◌
    ◌-ℤ◌
draws_six = refl

draw_adds_up_example : (total six_pieces +ℤ pos 2 ≡ pos 8) × (pos 0 ≤ℤ pos 2)
draw_adds_up_example =
    draw_adds_up 70 8 reserve_mode 3 quiet_day six_pieces (pos 2)
      (draw 70 (pos 8) reserve_mode 3 quiet_day).1 draws_six
