-- ===== src/Ledger/Draw.antt =====
-- `_draw` of backend/app/services/inventory.py: goods of one SKU are taken from its bins.
pub mod Keeping
pub mod Drawing
pub mod Flows
use cross_pilot.Prelude.Result.{Result, ok, err}
use cross_pilot.Prelude.Int.{ℤ, ◌-ℤ◌, negate}
use cross_pilot.Prelude.{
  ◌==◌, if◌then◌else◌, ℕ, zero, suc, Bool, true, false, Option, none, some, List, [], ◌∷◌, ◌++◌,
}
use cross_pilot.Ledger.Tables.{Warehouse, Inventory, reserve, ship, Delta, no_delta, list_for_sku}
use cross_pilot.Ledger.Exec.{
  not_found, param_invalid, Exec, pure, raise, gets, or_raise, ◌>>=◌, ◌>>◌,
}
use cross_pilot.Ledger.Change.{
  Status, applied, conflict, insufficient, missing, apply_once, available, occupied, getattr, Note,
  append_flow, version_retries,
}
use cross_pilot.Stock.Allocate.{BinView, Allocation, is_zero, plan_allocations}

-- `BinView(…)` for each pair
unfoldable pub bins_of : List (Inventory × Warehouse) → List BinView
bins_of [] = []
bins_of ((row, w) ∷ pairs) =
    record {
      warehouse_id = row.warehouse_id;
      available = row.available;
      occupied = row.occupied;
      is_default = w.is_default;
      warehouse_type = w.warehouse_type;
    }
    ∷ bins_of pairs

-- `next(item for item, _warehouse in pairs if …)`; `none` is Python's `StopIteration`
unfoldable pub row_of : ℕ → List (Inventory × Warehouse) → Option Inventory
row_of warehouse_id [] = none
row_of warehouse_id ((row, w) ∷ pairs) =
    if row.warehouse_id == warehouse_id then some row else row_of warehouse_id pairs

pub data Mode : Type 0 where
  reserve_mode outbound_mode : Mode

abbrev pub delta_of : Mode → ℤ → Delta
delta_of reserve_mode q = record no_delta { occupied = q }
delta_of outbound_mode q = record no_delta { available = negate q }

abbrev pub draw_note : Mode → ℕ → ℤ → Note
draw_note reserve_mode order_id q = record {
  flow_type = reserve;
  quantity = q;
  before_name = occupied;
  ref_type = "ORDER";
  ref_id = some order_id;
}
draw_note outbound_mode order_id q = record {
  flow_type = ship;
  quantity = q;
  before_name = available;
  ref_type = "ORDER";
  ref_id = some order_id;
}

-- What the draw has so far: the entries taken, and what is left.
abbrev pub Drawn : Type 0
Drawn = List Allocation × ℤ

-- What the object `row` shows once `fresh` was loaded: a session holds one object for each primary
-- key, and loading a row again overwrites it.
abbrev pub refreshed : Inventory → Inventory → Inventory
refreshed row fresh = if row.id == fresh.id then fresh else row

-- One entry of the plan, after its `_apply_once`, which has loaded the row again.
-- The result says whether the entry conflicted.
unfoldable pub take_entry :
    Mode → ℕ → Allocation → Inventory → Drawn → Status × Option Inventory → Exec (Bool × Drawn)
take_entry mode order_id alloc row (taken, left) (applied, some fresh) = do
  let note = draw_note mode order_id alloc.quantity
  append_flow fresh note (getattr (refreshed row fresh) note.before_name)
      (getattr fresh note.before_name)
  pure (false, (taken ++ alloc ∷ [], left -ℤ alloc.quantity))
take_entry mode order_id alloc row drawn (applied, none) = pure (true, drawn)
take_entry mode order_id alloc row drawn (conflict, o) = pure (true, drawn)
take_entry mode order_id alloc row drawn (insufficient, o) = pure (true, drawn)
take_entry mode order_id alloc row drawn (missing, o) = pure (true, drawn)

unfoldable pub draw_entry : Mode → ℕ → Allocation → Inventory → Drawn → Exec (Bool × Drawn)
draw_entry mode order_id alloc row drawn =
    apply_once row (delta_of mode alloc.quantity) >>= take_entry mode order_id alloc row drawn

-- The loop over the plan: it stops at the first conflict.
unfoldable pub take_plan :
    Mode → ℕ → List (Inventory × Warehouse) → List Allocation → Drawn → Exec (Bool × Drawn)
take_plan mode order_id pairs [] drawn = pure (false, drawn)
take_plan mode order_id pairs (alloc ∷ plan) drawn = do
  row ← or_raise (row_of alloc.warehouse_id pairs) not_found
  (conflicted, drawn') ← draw_entry mode order_id alloc row drawn
  if conflicted then pure (true, drawn') else take_plan mode order_id pairs plan drawn'

-- `plan_allocations` raises on a negative quantity, which no caller gives.
abbrev pub lift_plan : {E : Type 0} → Result E Drawn → Exec Drawn
lift_plan (ok plan) = pure plan
lift_plan (err e) = raise param_invalid

-- The rest of a round: nothing planned ends the loop, and only a conflict makes another round.
unfoldable pub draw_planned :
    (Drawn → Exec Drawn)
    → Mode
    → ℕ
    → List (Inventory × Warehouse)
    → List Allocation
    → Drawn
    → Exec Drawn
draw_planned again mode order_id pairs [] drawn = pure drawn
draw_planned again mode order_id pairs (alloc ∷ rest) drawn = do
  (conflicted, drawn') ← take_plan mode order_id pairs (alloc ∷ rest) drawn
  if conflicted then again drawn' else pure drawn'

unfoldable pub draw_loop : ℕ → ℕ → Mode → ℕ → Drawn → Exec Drawn
draw_loop zero sku_id mode order_id drawn = pure drawn
draw_loop (suc rounds) sku_id mode order_id drawn =
    let again : Drawn → Exec Drawn = λ d. draw_loop rounds sku_id mode order_id d in
    if is_zero drawn.1 then pure drawn else (do
      pairs ← gets (λ s. list_for_sku sku_id s.warehouses s.inventories)
      plan ← lift_plan (plan_allocations (bins_of pairs) drawn.1)
      draw_planned again mode order_id pairs plan.0 drawn)

unfoldable pub draw : ℕ → ℤ → Mode → ℕ → Exec Drawn
draw sku_id quantity mode order_id = draw_loop version_retries sku_id mode order_id ([], quantity)
