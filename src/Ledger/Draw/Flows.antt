-- ===== src/Ledger/Draw/Flows.antt =====
-- What `_draw` writes down: its flows do not tell the number before from the number after.
use cross_pilot.Ledger.Change.Rows.{id-find_row}
use cross_pilot.Stock.Allocate.{Allocation}
use cross_pilot.Ledger.Draw.Keeping.{draw-Keeps_by}
use cross_pilot.Prelude.Int.{ℤ}
use cross_pilot.Prelude.{
  ◌==◌, Bool-cases, All, ℕ, ◌≡◌, refl, ap, inl, inr, true, Option, none, some, List, [], ◌∷◌, ◌++◌,
  arith,
}
use cross_pilot.Ledger.Draw.{Mode, delta_of, Drawn, take_entry, draw_entry, draw}
use cross_pilot.Ledger.Change.{
  Status, applied, conflict, insufficient, missing, interfere_with, interfere, update_once,
  apply_change, fresh_row, apply_once, Note, flow_of, append_flow,
}
use cross_pilot.Ledger.Exec.{Write, Session, ◌>>=◌}
use cross_pilot.Ledger.Exec.Keeps.{Keeps, keeps_rules}
use cross_pilot.Ledger.Tables.{Inventory, InventoryFlow, Delta, update_row}

-- The session has written flows since `old`, and in none of them do the two numbers differ.
pub record WrittenBlank (old : List InventoryFlow) (s : Session) : Type 0 where
  pub new : List InventoryFlow
  pub log : s.flows ≡ new ++ old
  pub blank : All (λ f. f.before_qty ≡ f.after_qty) new

interfere-Blank :
    (old : List InventoryFlow) (s : Session) → WrittenBlank old s → WrittenBlank old (interfere s)
unfolding interfere
interfere-Blank old s h = go s.others
  where
    go : (o : List (List Write)) → WrittenBlank old (interfere_with o s)
    go [] = h
    go (ws ∷ rest) = record { new = h.new; log = h.log; blank = h.blank }

update_once-Blank :
    (old : List InventoryFlow) (id version : ℕ) (d : Delta) (s : Session)
    → WrittenBlank old s
    → WrittenBlank old (update_once id version d s).1
unfolding update_once
update_once-Blank old id version d s h =
    elim (Bool-cases (update_row id version d s.inventories).1) [
      | inl hit ↦ rw hit (record { new = h.new; log = h.log; blank = h.blank })
      | inr miss ↦ rw miss h
    ]

append_flow-Blank :
    (old : List InventoryFlow) (row : Inventory) (note : Note) (b : ℤ)
    → Keeps (WrittenBlank old) (append_flow row note b b)
unfolding append_flow flow_of
append_flow-Blank old row note b = record {
  at = λ s h. record {
    new = flow_of row note b b ∷ h.new;
    log = ap (λ l. flow_of row note b b ∷ l) h.log;
    blank = (refl, h.blank);
  };
}

take_entry-Blank :
    (old : List InventoryFlow) (mode : Mode) (order_id : ℕ) (alloc : Allocation) (row : Inventory)
    (drawn : Drawn) (status : Status) (o : Option Inventory) (rows : List Inventory)
    → fresh_row status row.id rows ≡ o
    → Keeps (WrittenBlank old) (take_entry mode order_id alloc row drawn (status, o))
unfolding take_entry fresh_row
take_entry-Blank old mode order_id alloc row drawn applied (some fresh) rows e =
    let same : fresh.id ≡ row.id = id-find_row row.id rows fresh e in
    let one : (row.id == fresh.id) ≡ true = ground arith in
    rw one (search (keeps_rules, append_flow-Blank))
take_entry-Blank old mode order_id alloc row drawn applied none rows e = search keeps_rules
take_entry-Blank old mode order_id alloc row drawn conflict o rows e = search keeps_rules
take_entry-Blank old mode order_id alloc row drawn insufficient o rows e = search keeps_rules
take_entry-Blank old mode order_id alloc row drawn missing o rows e = search keeps_rules

draw_entry-Blank :
    (old : List InventoryFlow) (mode : Mode) (order_id : ℕ) (alloc : Allocation) (row : Inventory)
    (drawn : Drawn)
    → Keeps (WrittenBlank old) (draw_entry mode order_id alloc row drawn)
unfolding draw_entry apply_once apply_change ◌>>=◌
draw_entry-Blank old mode order_id alloc row drawn = record {
  at = λ s h.
      let d = delta_of mode alloc.quantity in
      let r = update_once row.id row.version d (interfere s) in
      (take_entry-Blank old mode order_id alloc row drawn r.0 (fresh_row r.0 row.id r.1.inventories)
          r.1.inventories refl).at
        r.1 (update_once-Blank old row.id row.version d (interfere s) (interfere-Blank old s h));
}

-- Every flow that `_draw` writes, for a reservation or for goods that are shipped unreserved, has
-- the same number before the change as after it.
pub draw-Blank :
    (sku_id : ℕ) (quantity : ℤ) (mode : Mode) (order_id : ℕ) (s : Session)
    → WrittenBlank s.flows (draw sku_id quantity mode order_id s).1
draw-Blank sku_id quantity mode order_id s =
    let k : Keeps (WrittenBlank s.flows) (draw sku_id quantity mode order_id) =
      draw-Keeps_by (draw_entry-Blank s.flows) sku_id quantity mode order_id in
    k.at s (record { new = []; log = refl; blank = tt })
