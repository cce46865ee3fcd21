-- ===== src/Ledger/Takings/Sound.antt =====
-- Stock takings keep the constraints of the inventory table.
use cross_pilot.Prelude.Int.{ℤ}
use cross_pilot.Prelude.{ℕ, List, [], ◌∷◌}
use cross_pilot.Ledger.Tables.{Inventory, TakingStatus, StockTaking, StockTakingLine}
use cross_pilot.Ledger.Exec.Keeps.{Keeps, Keeps-pure, Keeps-bind, keeps_rules}
use cross_pilot.Ledger.Change.Sound.{LedgerSound}
use cross_pilot.Ledger.Direct.Sound.{adjust_stock-Keeps}
use cross_pilot.Ledger.Transfers.{need_warehouse}
use cross_pilot.Ledger.Takings.{
  get_taking, set_takings, transition_taking, insert_taking, add_taking_line, create_taking,
  set_taking_lines, record_count, record_counts, plan_taking_line, plan_taking, post_planned,
  post_taking, cancel_taking,
}

set_takings-Sound : (ts : List StockTaking) → Keeps LedgerSound (set_takings ts)
unfolding set_takings
set_takings-Sound ts = record { at = λ s h. record { rows = h.rows; apart = h.apart } }

insert_taking-Sound : (t : StockTaking) → Keeps LedgerSound (insert_taking t)
unfolding insert_taking
insert_taking-Sound t = record { at = λ s h. record { rows = h.rows; apart = h.apart } }

add_taking_line-Sound :
    (id : ℕ) (balance : Inventory) → Keeps LedgerSound (add_taking_line id balance)
unfolding add_taking_line
add_taking_line-Sound id balance = record { at = λ s h. record { rows = h.rows; apart = h.apart } }

set_taking_lines-Sound : (lines : List StockTakingLine) → Keeps LedgerSound (set_taking_lines lines)
unfolding set_taking_lines
set_taking_lines-Sound lines = record { at = λ s h. record { rows = h.rows; apart = h.apart } }

transition_taking-Sound :
    (id : ℕ) (from to : TakingStatus) → Keeps LedgerSound (transition_taking id from to)
unfolding transition_taking
transition_taking-Sound id from to = search (keeps_rules, set_takings-Sound)

plan_taking_line-Sound :
    (t : StockTaking) (line : StockTakingLine) → Keeps LedgerSound (plan_taking_line t line)
unfolding plan_taking_line
plan_taking_line-Sound t line = search keeps_rules depth 12

plan_taking-Sound :
    (t : StockTaking) (lines : List StockTakingLine) → Keeps LedgerSound (plan_taking t lines)
unfolding plan_taking
plan_taking-Sound t [] = search keeps_rules
plan_taking-Sound t (line ∷ lines) =
    Keeps-bind (plan_taking_line t line) _ (plan_taking_line-Sound t line) (λ planned.
      Keeps-bind (plan_taking t lines) _ (plan_taking-Sound t lines)
        (λ rest. Keeps-pure (planned ∷ rest)))

post_planned-Sound :
    (t : StockTaking) (planned : ℕ × ℤ) → Keeps LedgerSound (post_planned t planned)
unfolding post_planned
post_planned-Sound t planned = search (keeps_rules, adjust_stock-Keeps)

record_count-Sound : (id : ℕ) (item : ℕ × ℤ) → Keeps LedgerSound (record_count id item)
unfolding record_count
record_count-Sound id item = search (keeps_rules, set_taking_lines-Sound)

pub create_taking-Sound : (warehouse_id : ℕ) → Keeps LedgerSound (create_taking warehouse_id)
unfolding create_taking need_warehouse
create_taking-Sound warehouse_id =
    search (keeps_rules, insert_taking-Sound, add_taking_line-Sound) depth 14

-- The recording of counts, and the posting and the cancellation of a taking.
pub takings-Sound :
    (id : ℕ) (items : List (ℕ × ℤ))
    → Keeps LedgerSound (record_counts id items)
      × Keeps LedgerSound (post_taking id)
      × Keeps LedgerSound (cancel_taking id)
unfolding record_counts post_taking cancel_taking get_taking
takings-Sound id items = (
  search (keeps_rules, record_count-Sound) depth 12,
  search (keeps_rules, plan_taking-Sound, transition_taking-Sound, post_planned-Sound) depth 16,
  search (keeps_rules, transition_taking-Sound) depth 12,
)
