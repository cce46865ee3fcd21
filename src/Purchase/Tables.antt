-- ===== src/Purchase/Tables.antt =====
-- The tables of purchase orders (backend/app/models/purchase.py), each in the order of its ids. Prices,
-- dates, notes and the details of a receipt are only stored, and are left out.
use cross_pilot.Prelude.Text.{String, str_eq}
use cross_pilot.Prelude.Int.{ℤ}
use cross_pilot.Prelude.{◌==◌, if◌then◌else◌, ℕ, Bool, false, Option, none, some, List, [], ◌∷◌}
use cross_pilot.Purchase.{PoStatus, Disposition}

pub record PurchaseOrder : Type 0 where
  pub id : ℕ
  pub warehouse_id : ℕ
  pub status : PoStatus

pub record PurchaseOrderItem : Type 0 where
  pub id : ℕ
  pub purchase_order_id : ℕ
  pub sku_id : ℕ
  pub quantity : ℤ
  pub received_qty : ℤ
  pub short_qty : ℤ

pub record PurchaseReceipt : Type 0 where
  pub id : ℕ
  pub purchase_order_id : ℕ
  pub disposition : Disposition
  pub idempotency_key : Option String

unfoldable pub find_purchase : ℕ → List PurchaseOrder → Option PurchaseOrder
find_purchase id [] = none
find_purchase id (order ∷ orders) = if order.id == id then some order else find_purchase id orders

unfoldable pub update_purchase :
    ℕ → (PurchaseOrder → PurchaseOrder) → List PurchaseOrder → List PurchaseOrder
update_purchase id f [] = []
update_purchase id f (order ∷ orders) =
    let rest = update_purchase id f orders in
    if order.id == id then f order ∷ orders else order ∷ rest

-- `list_for_order`
unfoldable pub list_for_order : ℕ → List PurchaseOrderItem → List PurchaseOrderItem
list_for_order id [] = []
list_for_order id (item ∷ items) =
    let rest = list_for_order id items in if item.purchase_order_id == id then item ∷ rest else rest

unfoldable pub find_item : ℕ → List PurchaseOrderItem → Option PurchaseOrderItem
find_item id [] = none
find_item id (item ∷ items) = if item.id == id then some item else find_item id items

unfoldable pub update_item :
    ℕ → (PurchaseOrderItem → PurchaseOrderItem) → List PurchaseOrderItem → List PurchaseOrderItem
update_item id f [] = []
update_item id f (item ∷ items) =
    let rest = update_item id f items in if item.id == id then f item ∷ items else item ∷ rest

abbrev pub is_key : String → Option String → Bool
is_key key none = false
is_key key (some k) = str_eq k key

-- `get_by_key` of the receipts
unfoldable pub receipt_by_key : String → List PurchaseReceipt → Option PurchaseReceipt
receipt_by_key key [] = none
receipt_by_key key (receipt ∷ receipts) =
    if is_key key receipt.idempotency_key then some receipt else receipt_by_key key receipts
