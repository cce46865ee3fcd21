-- ===== src/Ledger/Change/Keeping.antt =====
-- What a change to one row keeps: all that one attempt, a flow and a mark keep.
use cross_pilot.Prelude.Int.{ℤ}
use cross_pilot.Prelude.{ℕ, zero, suc, Option, none, some}
use cross_pilot.Ledger.Exec.{Session, Exec}
use cross_pilot.Ledger.Exec.Keeps.{Keeps, Keeps-bind, keeps_rules}
use cross_pilot.Ledger.Change.{
  Status, applied, conflict, insufficient, missing, apply_once, getattr, Note, append_flow, touch,
  version_retries, after_once, commit_loop, commit_change,
}
use cross_pilot.Ledger.Tables.{Inventory, Delta}

module _ {P : Session → Type 0} (once : (row : Inventory) (d : Delta) → Keeps P (apply_once row d))
    (flow : (row : Inventory) (note : Note) (b a : ℤ) → Keeps P (append_flow row note b a))
    (mark : (sku_id : ℕ) → Keeps P (touch sku_id)) where
  after_once-Keeps :
      (again : Inventory → Exec Inventory) (note : Note) (b : ℤ) (r : Status × Option Inventory)
      → ((row : Inventory) → Keeps P (again row))
      → Keeps P (after_once again note b r)
  unfolding after_once
  after_once-Keeps again note b (applied, some fresh) k = search (keeps_rules, flow, mark)
  after_once-Keeps again note b (conflict, some fresh) k = k fresh
  after_once-Keeps again note b (insufficient, fresh) k = search keeps_rules
  after_once-Keeps again note b (applied, none) k = search keeps_rules
  after_once-Keeps again note b (conflict, none) k = search keeps_rules
  after_once-Keeps again note b (missing, fresh) k = search keeps_rules

  commit_loop-Keeps :
      (n : ℕ) (row : Inventory) (note : Note) (d : Delta) → Keeps P (commit_loop n row note d)
  unfolding commit_loop
  commit_loop-Keeps zero row note d = search keeps_rules
  commit_loop-Keeps (suc n) row note d = Keeps-bind (apply_once row d) _ (once row d) (λ r.
      after_once-Keeps (λ fresh. commit_loop n fresh note d) note (getattr row note.before_name) r
        (λ fresh. commit_loop-Keeps n fresh note d))

  pub commit_change-Keeps :
      (row : Inventory) (note : Note) (d : Delta) → Keeps P (commit_change row note d)
  unfolding commit_change
  commit_change-Keeps row note d = commit_loop-Keeps version_retries row note d
