-- ===== src/Ledger/Tables.antt =====
-- The tables of one tenant behind the stock ledger (backend/app/models/inventory.py), and the SQL on
-- them (backend/app/repositories/inventory.py). A table is the list of its rows. Columns that hold
-- times, authors and tenants are left out, and so are the limits of SQL's integers.
use cross_pilot.Prelude.Text.{String}
use cross_pilot.Prelude.Int.{ℤ, pos, ◌+ℤ◌, leb_ℤ}
use cross_pilot.Prelude.{
  ◌==◌, if◌then◌else◌, ℕ, ◌+◌, Bool, true, false, not, ◌&&◌, Option, none, some, List, [], ◌∷◌,
}
use cross_pilot.Stock.Allocate.{Allocation}

pub record Warehouse : Type 0 where
  pub id : ℕ
  pub is_default : Bool
  pub warehouse_type : String
  pub deleted : Bool

pub record Inventory : Type 0 where
  pub id : ℕ
  pub sku_id : ℕ
  pub warehouse_id : ℕ
  pub available : ℤ
  pub occupied : ℤ
  pub in_transit : ℤ
  pub defective : ℤ
  pub safe_stock : ℤ
  pub version : ℕ

pub data FlowType : Type 0 where
  inbound outbound reserve release ship return_in adjust transfer_out transfer_in : FlowType

pub record InventoryFlow : Type 0 where
  pub inventory_id : ℕ
  pub sku_id : ℕ
  pub warehouse_id : ℕ
  pub flow_type : FlowType
  pub quantity : ℤ
  pub ref_type : String
  pub ref_id : Option ℕ
  pub before_qty : ℤ
  pub after_qty : ℤ

pub data HoldStatus : Type 0 where
  open_hold released shipped short : HoldStatus

pub record InventoryHold : Type 0 where
  pub order_id : ℕ
  pub order_item_id : ℕ
  pub sku_id : ℕ
  pub quantity : ℤ
  pub short_qty : ℤ
  pub allocations : List Allocation
  pub status : HoldStatus

-- The columns of an order's line that the ledger reads.
pub record OrderItem : Type 0 where
  pub id : ℕ
  pub order_id : ℕ
  pub sku_id : Option ℕ
  pub quantity : ℤ

pub data TransferStatus : Type 0 where
  draft on_the_way received cancelled : TransferStatus

pub record StockTransfer : Type 0 where
  pub id : ℕ
  pub from_warehouse_id : ℕ
  pub to_warehouse_id : ℕ
  pub status : TransferStatus

pub record StockTransferLine : Type 0 where
  pub transfer_id : ℕ
  pub sku_id : ℕ
  pub quantity : ℤ

pub data TakingStatus : Type 0 where
  counting posted dropped : TakingStatus

pub record StockTaking : Type 0 where
  pub id : ℕ
  pub warehouse_id : ℕ
  pub status : TakingStatus

-- The frozen number of the book, and the number that was counted.
pub record StockTakingLine : Type 0 where
  pub taking_id : ℕ
  pub sku_id : ℕ
  pub book_qty : ℤ
  pub counted_qty : Option ℤ

-- The four deltas of an UPDATE.
pub record Delta : Type 0 where
  pub available : ℤ
  pub occupied : ℤ
  pub defective : ℤ
  pub in_transit : ℤ

abbrev pub no_delta : Delta
no_delta = record { available = pos 0; occupied = pos 0; defective = pos 0; in_transit = pos 0 }

abbrev pub default_safe_stock : ℤ
default_safe_stock = pos 2

-- the conditions of `apply_change`'s WHERE on the new numbers
unfoldable pub fits : Inventory → Delta → Bool
fits row d =
    leb_ℤ (pos 0) (row.available +ℤ d.available)
    && leb_ℤ (pos 0) (row.occupied +ℤ d.occupied)
    && leb_ℤ (pos 0) (row.defective +ℤ d.defective)
    && leb_ℤ (pos 0) (row.in_transit +ℤ d.in_transit)
    && leb_ℤ (row.occupied +ℤ d.occupied) (row.available +ℤ d.available)

-- its VALUES
unfoldable pub changed : Inventory → Delta → Inventory
changed row d = record row {
  available = row.available +ℤ d.available;
  occupied = row.occupied +ℤ d.occupied;
  defective = row.defective +ℤ d.defective;
  in_transit = row.in_transit +ℤ d.in_transit;
  version = row.version + 1;
}

-- The UPDATE of `apply_change`: the table after it, and whether a row was hit. The id is the
-- primary key, so the first row with it is the only one.
unfoldable pub update_row : ℕ → ℕ → Delta → List Inventory → List Inventory × Bool
update_row id version d [] = ([], false)
update_row id version d (row ∷ rows) =
    let (rest, hit) = update_row id version d rows in
    if row.id == id
    then (if row.version == version && fits row d
        then (changed row d ∷ rows, true)
        else (row ∷ rows, false))
    else (row ∷ rest, hit)

-- `get(inventory_id)`
unfoldable pub find_row : ℕ → List Inventory → Option Inventory
find_row id [] = none
find_row id (row ∷ rows) = if row.id == id then some row else find_row id rows

unfoldable pub get_pair : ℕ → ℕ → List Inventory → Option Inventory
get_pair sku_id warehouse_id [] = none
get_pair sku_id warehouse_id (row ∷ rows) =
    if row.sku_id == sku_id && row.warehouse_id == warehouse_id
    then some row
    else get_pair sku_id warehouse_id rows

-- a warehouse that is not deleted
unfoldable pub find_warehouse : ℕ → List Warehouse → Option Warehouse
find_warehouse id [] = none
find_warehouse id (w ∷ ws) = if w.id == id && not w.deleted then some w else find_warehouse id ws

abbrev pub pair_with :
    Inventory → Option Warehouse → List (Inventory × Warehouse) → List (Inventory × Warehouse)
pair_with row none pairs = pairs
pair_with row (some w) pairs = (row, w) ∷ pairs

-- The join of `list_for_sku`. It stands in the order of the table: its only reader ranks the pairs
-- by a key of its own, in which no two rows of one SKU agree.
unfoldable pub list_for_sku : ℕ → List Warehouse → List Inventory → List (Inventory × Warehouse)
list_for_sku sku_id ws [] = []
list_for_sku sku_id ws (row ∷ rows) =
    let pairs = list_for_sku sku_id ws rows in
    if row.sku_id == sku_id then pair_with row (find_warehouse row.warehouse_id ws) pairs else pairs

unfoldable pub get_for_item : ℕ → List InventoryHold → Option InventoryHold
get_for_item item_id [] = none
get_for_item item_id (hold ∷ holds) =
    if hold.order_item_id == item_id then some hold else get_for_item item_id holds

-- `list_for_order` of the holds, and `list_items` of the orders
unfoldable pub holds_for_order : ℕ → List InventoryHold → List InventoryHold
holds_for_order order_id [] = []
holds_for_order order_id (hold ∷ holds) =
    let rest = holds_for_order order_id holds in
    if hold.order_id == order_id then hold ∷ rest else rest

unfoldable pub list_items : ℕ → List OrderItem → List OrderItem
list_items order_id [] = []
list_items order_id (item ∷ items) =
    let rest = list_items order_id items in if item.order_id == order_id then item ∷ rest else rest
