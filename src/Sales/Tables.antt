-- ===== src/Sales/Tables.antt =====
-- The tables of orders (backend/app/models/order.py) that the services below read and write. Buyers,
-- addresses, item texts, fees and payloads are only stored, and are left out. A time is its
-- microseconds since an epoch; an amount is a whole number of millionths, as `_money` stores it.
use cross_pilot.Order.Status.{StatusChangeSource}
use cross_pilot.Prelude.Text.{String, str_eq}
use cross_pilot.Prelude.Int.{ℤ}
use cross_pilot.Prelude.{◌==◌, if◌then◌else◌, ℕ, Bool, ◌&&◌, Option, none, some, List, [], ◌∷◌}

-- The three parts of an idempotency key, which the source joins by colons. Neither the code of a
-- platform nor the number of a shop has a colon, so the joined text tells the parts.
pub record OrderKey : Type 0 where
  pub platform : String
  pub shop_id : ℕ
  pub platform_order_id : String

abbrev pub same_key : OrderKey → OrderKey → Bool
same_key a b =
    str_eq a.platform b.platform
    && a.shop_id == b.shop_id
    && str_eq a.platform_order_id b.platform_order_id

pub record SalesOrder : Type 0 where
  pub id : ℕ
  pub key : OrderKey
  pub unified_status : String
  pub currency : String
  pub total_amount : ℤ
  pub platform_updated_at : Option ℤ
  pub paid_at : Option ℤ
  pub shipped_at : Option ℤ
  pub delivered_at : Option ℤ
  pub review_status : String

pub record OrderStatusLog : Type 0 where
  pub order_id : ℕ
  pub from_status : Option String
  pub to_status : String
  pub source : StatusChangeSource
  pub remark : Option String

pub record Shipment : Type 0 where
  pub order_id : ℕ
  pub succeeded : Bool
  pub tracking_no : String
  pub attempt : ℕ

pub record ReturnOrder : Type 0 where
  pub id : ℕ
  pub order_id : ℕ
  pub status : String
  pub refund_amount : ℤ
  pub restock_flag : Bool
  pub restock_sellable : Bool
  pub restock_status : String

-- `get_by_key`
unfoldable pub get_by_key : OrderKey → List SalesOrder → Option SalesOrder
get_by_key key [] = none
get_by_key key (row ∷ rows) = if same_key row.key key then some row else get_by_key key rows

-- `get` of the orders
unfoldable pub find_order : ℕ → List SalesOrder → Option SalesOrder
find_order id [] = none
find_order id (row ∷ rows) = if row.id == id then some row else find_order id rows

-- The rows with that id's one changed.
unfoldable pub update_order : ℕ → (SalesOrder → SalesOrder) → List SalesOrder → List SalesOrder
update_order id f [] = []
update_order id f (row ∷ rows) =
    let rest = update_order id f rows in if row.id == id then f row ∷ rows else row ∷ rest

-- the log of one order, the newest entry first
unfoldable pub logs_for : ℕ → List OrderStatusLog → List OrderStatusLog
logs_for order_id [] = []
logs_for order_id (entry ∷ logs) =
    let rest = logs_for order_id logs in if entry.order_id == order_id then entry ∷ rest else rest
