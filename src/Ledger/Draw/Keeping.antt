-- ===== src/Ledger/Draw/Keeping.antt =====
-- What `_draw` keeps: all that an update of a row, and a flow that `_draw` writes, keep.
use cross_pilot.Prelude.Result.{Result, ok, err}
use cross_pilot.Prelude.Int.{ℤ}
use cross_pilot.Prelude.{ℕ, zero, suc, Option, none, some, List, [], ◌∷◌}
use cross_pilot.Ledger.Draw.{
  Mode, Drawn, take_entry, draw_entry, take_plan, lift_plan, draw_planned, draw_loop, draw,
}
use cross_pilot.Ledger.Change.{
  Status, applied, conflict, insufficient, missing, apply_once, Note, append_flow, version_retries,
}
use cross_pilot.Ledger.Exec.{Session, Exec}
use cross_pilot.Ledger.Exec.Keeps.{Keeps, keeps_rules}
use cross_pilot.Ledger.Tables.{Warehouse, Inventory, Delta}
use cross_pilot.Stock.Allocate.{Allocation}

module _ {P : Session → Type 0}
    (entry : (mode : Mode) (order_id : ℕ) (alloc : Allocation) (row : Inventory) (drawn : Drawn)
      → Keeps P (draw_entry mode order_id alloc row drawn)) where
  take_plan-Keeps :
      (mode : Mode) (order_id : ℕ) (pairs : List (Inventory × Warehouse)) (plan : List Allocation)
      (drawn : Drawn)
      → Keeps P (take_plan mode order_id pairs plan drawn)
  unfolding take_plan
  take_plan-Keeps mode order_id pairs [] drawn = search keeps_rules
  take_plan-Keeps mode order_id pairs (alloc ∷ plan) drawn =
      search (keeps_rules, entry, take_plan-Keeps mode order_id pairs plan)

  lift_plan-Keeps : {E : Type 0} (r : Result E Drawn) → Keeps P (lift_plan r)
  lift_plan-Keeps (ok plan) = search keeps_rules
  lift_plan-Keeps (err e) = search keeps_rules

  draw_planned-Keeps :
      (again : Drawn → Exec Drawn) (mode : Mode) (order_id : ℕ)
      (pairs : List (Inventory × Warehouse)) (plan : List Allocation) (drawn : Drawn)
      → ((d : Drawn) → Keeps P (again d))
      → Keeps P (draw_planned again mode order_id pairs plan drawn)
  unfolding draw_planned
  draw_planned-Keeps again mode order_id pairs [] drawn k = search keeps_rules
  draw_planned-Keeps again mode order_id pairs (alloc ∷ rest) drawn k =
      search (keeps_rules, take_plan-Keeps, k)

  draw_loop-Keeps :
      (rounds sku_id : ℕ) (mode : Mode) (order_id : ℕ) (drawn : Drawn)
      → Keeps P (draw_loop rounds sku_id mode order_id drawn)
  unfolding draw_loop
  draw_loop-Keeps zero sku_id mode order_id drawn = search keeps_rules
  draw_loop-Keeps (suc rounds) sku_id mode order_id drawn = search (
    keeps_rules,
    lift_plan-Keeps,
    draw_planned-Keeps,
    draw_loop-Keeps rounds sku_id mode order_id,
  )

  pub draw-Keeps_by :
      (sku_id : ℕ) (quantity : ℤ) (mode : Mode) (order_id : ℕ)
      → Keeps P (draw sku_id quantity mode order_id)
  unfolding draw
  draw-Keeps_by sku_id quantity mode order_id =
      draw_loop-Keeps version_retries sku_id mode order_id _

module _ {P : Session → Type 0} (once : (row : Inventory) (d : Delta) → Keeps P (apply_once row d))
    (flow : (row : Inventory) (note : Note) (b a : ℤ) → Keeps P (append_flow row note b a)) where
  take_entry-Keeps :
      (mode : Mode) (order_id : ℕ) (alloc : Allocation) (row : Inventory) (drawn : Drawn)
      (r : Status × Option Inventory)
      → Keeps P (take_entry mode order_id alloc row drawn r)
  unfolding take_entry
  take_entry-Keeps mode order_id alloc row drawn (applied, some fresh) = search (keeps_rules, flow)
  take_entry-Keeps mode order_id alloc row drawn (applied, none) = search keeps_rules
  take_entry-Keeps mode order_id alloc row drawn (conflict, o) = search keeps_rules
  take_entry-Keeps mode order_id alloc row drawn (insufficient, o) = search keeps_rules
  take_entry-Keeps mode order_id alloc row drawn (missing, o) = search keeps_rules

  draw_entry-Keeps :
      (mode : Mode) (order_id : ℕ) (alloc : Allocation) (row : Inventory) (drawn : Drawn)
      → Keeps P (draw_entry mode order_id alloc row drawn)
  unfolding draw_entry
  draw_entry-Keeps mode order_id alloc row drawn = search (keeps_rules, once, take_entry-Keeps)

  pub draw-Keeps :
      (sku_id : ℕ) (quantity : ℤ) (mode : Mode) (order_id : ℕ)
      → Keeps P (draw sku_id quantity mode order_id)
  draw-Keeps = draw-Keeps_by draw_entry-Keeps
