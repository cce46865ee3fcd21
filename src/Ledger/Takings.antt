-- ===== src/Ledger/Takings.antt =====
-- Stock takings: `create_taking`, `record_counts`, `post_taking` and `cancel_taking` of
-- backend/app/services/inventory.py, with `StockTakingRepository` of backend/app/repositories/inventory.py.
-- DRAFT, POSTED and CANCELLED are `counting`, `posted` and `dropped`. The summary of the differences is
-- only stored, and is left out.
pub mod Sound
use cross_pilot.Prelude.Int.{ℤ}
use cross_pilot.Prelude.{
  ◌==◌, if◌then◌else◌, ℕ, suc, Bool, true, false, not, ◌&&◌, ◌||◌, Option, none, some, List, [],
  ◌∷◌, ◌++◌,
}
use cross_pilot.Ledger.Orders.{is_some}
use cross_pilot.Ledger.Tables.{
  Inventory, TakingStatus, counting, posted, dropped, StockTaking, StockTakingLine, get_pair,
}
use cross_pilot.Ledger.Exec.{
  inventory_insufficient, not_found, param_invalid, stock_taking_state, Exec, pure, gets, modify,
  or_raise, raise_when, ◌>>=◌, ◌>>◌, for_each,
}
use cross_pilot.Ledger.Direct.{kind_adjust, adjust_stock}
use cross_pilot.Ledger.Transfers.{need_warehouse}
use cross_pilot.Stock.Moves.{taking_delta, taking_fits}
use cross_pilot.Stock.Allocate.{is_zero}

abbrev pub is_taking_status : TakingStatus → TakingStatus → Bool
is_taking_status counting counting = true
is_taking_status posted posted = true
is_taking_status dropped dropped = true
is_taking_status a b = false

unfoldable pub find_taking : ℕ → List StockTaking → Option StockTaking
find_taking id [] = none
find_taking id (t ∷ ts) = if t.id == id then some t else find_taking id ts

-- the lines of `lines_for`
unfoldable pub taking_lines_for : ℕ → List StockTakingLine → List StockTakingLine
taking_lines_for id [] = []
taking_lines_for id (line ∷ lines) =
    let rest = taking_lines_for id lines in if line.taking_id == id then line ∷ rest else rest

unfoldable pub list_by_warehouse : ℕ → List Inventory → List Inventory
list_by_warehouse id [] = []
list_by_warehouse id (row ∷ rows) =
    let rest = list_by_warehouse id rows in if row.warehouse_id == id then row ∷ rest else rest

unfoldable pub get_taking : ℕ → Exec StockTaking
get_taking id = do o ← gets (λ s. find_taking id s.takings); or_raise o not_found

-- the UPDATE of `transition`, and whether a row was hit
unfoldable pub update_taking :
    ℕ → TakingStatus → TakingStatus → List StockTaking → List StockTaking × Bool
update_taking id from to [] = ([], false)
update_taking id from to (t ∷ ts) =
    let (rest, hit) = update_taking id from to ts in
    if t.id == id
    then (if is_taking_status t.status from
        then (record t { status = to } ∷ ts, true)
        else (t ∷ ts, false))
    else (t ∷ rest, hit)

unfoldable pub set_takings : List StockTaking → Exec (Unit {0})
set_takings takings = modify (λ s. record s { takings = takings })

unfoldable pub transition_taking : ℕ → TakingStatus → TakingStatus → Exec (Unit {0})
unfolding update_taking
transition_taking id from to = do
  (takings, hit) ← gets (λ s. update_taking id from to s.takings)
  raise_when (not hit) stock_taking_state
  set_takings takings

unfoldable pub insert_taking : StockTaking → Exec (Unit {0})
insert_taking t = modify (λ s. record s { takings = s.takings ++ t ∷ []; next_id = suc s.next_id })

unfoldable pub add_taking_line : ℕ → Inventory → Exec (Unit {0})
add_taking_line id balance = modify (λ s. record s {
  taking_lines =
      s.taking_lines
      ++ record {
        taking_id = id;
        sku_id = balance.sku_id;
        book_qty = balance.available;
        counted_qty = none;
      }
        ∷ [];
})

abbrev pub is_empty_list {ℓ} : {A : Type ℓ} → List A → Bool
is_empty_list [] = true
is_empty_list (x ∷ xs) = false

unfoldable pub create_taking : ℕ → Exec ℕ
create_taking warehouse_id = do
  need_warehouse warehouse_id
  balances ← gets (λ s. list_by_warehouse warehouse_id s.inventories)
  raise_when (is_empty_list balances) param_invalid
  id ← gets (λ s. s.next_id)
  insert_taking (record { id = id; warehouse_id = warehouse_id; status = counting })
  for_each (add_taking_line id) balances
  pure id

abbrev pub with_line :
    StockTakingLine → Option (List StockTakingLine) → Option (List StockTakingLine)
with_line line none = none
with_line line (some lines) = some (line ∷ lines)

-- The lines of a taking, with the count of one SKU set; none if the taking has no line for it.
unfoldable pub set_count : ℕ → ℕ → ℤ → List StockTakingLine → Option (List StockTakingLine)
set_count id sku_id counted [] = none
set_count id sku_id counted (line ∷ lines) =
    let rest = set_count id sku_id counted lines in
    if line.taking_id == id && line.sku_id == sku_id
    then some (record line { counted_qty = some counted } ∷ lines)
    else with_line line rest

unfoldable pub set_taking_lines : List StockTakingLine → Exec (Unit {0})
set_taking_lines lines = modify (λ s. record s { taking_lines = lines })

-- One line of a request: a SKU and its count.
unfoldable pub record_count : ℕ → ℕ × ℤ → Exec (Unit {0})
record_count id item = do
  o ← gets (λ s. set_count id item.0 item.1 s.taking_lines)
  lines ← or_raise o stock_taking_state
  set_taking_lines lines

unfoldable pub record_counts : ℕ → List (ℕ × ℤ) → Exec (Unit {0})
record_counts id items = do
  t ← get_taking id
  raise_when (not (is_taking_status t.status counting)) stock_taking_state
  for_each (record_count t.id) items

-- One line that is planned: what its SKU is to change by.
unfoldable pub plan_taking_line : StockTaking → StockTakingLine → Exec (ℕ × ℤ)
plan_taking_line t line = do
  counted ← or_raise line.counted_qty stock_taking_state
  o ← gets (λ s. get_pair line.sku_id t.warehouse_id s.inventories)
  row ← or_raise o not_found
  raise_when (not (taking_fits row.available row.occupied (taking_delta line.book_qty counted)))
      inventory_insufficient
  pure (line.sku_id, taking_delta line.book_qty counted)

unfoldable pub plan_taking : StockTaking → List StockTakingLine → Exec (List (ℕ × ℤ))
plan_taking t [] = pure []
plan_taking t (line ∷ lines) = do
  planned ← plan_taking_line t line
  rest ← plan_taking t lines
  pure (planned ∷ rest)

abbrev pub uncounted : List StockTakingLine → Bool
uncounted [] = false
uncounted (line ∷ lines) = not (is_some line.counted_qty) || uncounted lines

unfoldable pub post_planned : StockTaking → ℕ × ℤ → Exec (Unit {0})
post_planned t planned = if is_zero planned.1 then pure tt else (do
  adjust_stock planned.0 t.warehouse_id kind_adjust planned.1 (some "STOCK_TAKING") (some t.id)
  pure tt)

unfoldable pub post_taking : ℕ → Exec (Unit {0})
post_taking id = do
  t ← get_taking id
  raise_when (not (is_taking_status t.status counting)) stock_taking_state
  lines ← gets (λ s. taking_lines_for t.id s.taking_lines)
  raise_when (uncounted lines) stock_taking_state
  planned ← plan_taking t lines
  transition_taking t.id counting posted
  for_each (post_planned t) planned

unfoldable pub cancel_taking : ℕ → Exec (Unit {0})
cancel_taking id = do
  t ← get_taking id
  raise_when (not (is_taking_status t.status counting)) stock_taking_state
  transition_taking t.id counting dropped
