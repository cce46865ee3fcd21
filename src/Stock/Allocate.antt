-- ===== src/Stock/Allocate.antt =====
-- `plan_allocations` of backend/app/engines/inventory.py: which bins a quantity is taken from.
pub mod Sorting
pub mod Laws
use cross_pilot.Prelude.{ltb, if◌then◌else◌, ℕ, Bool, true, false, not, ◌&&◌, List, [], ◌∷◌}
use cross_pilot.Prelude.Int.{ℤ, pos, ◌-ℤ◌, ltb_ℤ, leb_ℤ, min_ℤ}
use cross_pilot.Prelude.Result.{Result, ok, err}
use cross_pilot.Prelude.Text.{String, str_eq}

-- the `ValueError` of this function
pub data ValueError : Type 0 where
  negative_quantity : ValueError

pub record BinView : Type 0 where
  pub warehouse_id : ℕ
  pub available : ℤ
  pub occupied : ℤ
  pub is_default : Bool
  pub warehouse_type : String

pub record Allocation : Type 0 where
  pub warehouse_id : ℕ
  pub quantity : ℤ

abbrev pub free : BinView → ℤ
free item = item.available -ℤ item.occupied

-- the first component of the sort key
abbrev pub default_rank : BinView → ℕ
default_rank item = if item.is_default then 0 else 1

-- The order of the keys `(default_rank, -free, warehouse_id)`: is the key of `a` below that of `b`?
abbrev pub key_lt : BinView → BinView → Bool
key_lt a b =
    if ltb (default_rank a) (default_rank b)
    then true
    else if ltb (default_rank b) (default_rank a)
    then false
    else if ltb_ℤ (free b) (free a)
    then true
    else if ltb_ℤ (free a) (free b)
    then false
    else ltb a.warehouse_id b.warehouse_id

-- Python's `sorted` is stable: an item goes in front of the items whose keys are not below its own.
unfoldable pub insert_bin : BinView → List BinView → List BinView
insert_bin item [] = item ∷ []
insert_bin item (other ∷ rest) =
    if key_lt other item then other ∷ insert_bin item rest else item ∷ other ∷ rest

unfoldable pub sort_bins : List BinView → List BinView
sort_bins [] = []
sort_bins (item ∷ rest) = insert_bin item (sort_bins rest)

-- `not item.is_default and item.warehouse_type == "PLATFORM"`
abbrev pub is_skipped : BinView → Bool
is_skipped item = not item.is_default && str_eq item.warehouse_type "PLATFORM"

abbrev pub is_zero : ℤ → Bool
is_zero n = leb_ℤ n (pos 0) && leb_ℤ (pos 0) n

abbrev pub cons_allocation : Allocation → List Allocation × ℤ → List Allocation × ℤ
cons_allocation a r = (a ∷ r.0, r.1)

-- The loop over the ranked bins: what is chosen from here on, and what is still lacking.
unfoldable pub choose : List BinView → ℤ → List Allocation × ℤ
choose [] left = ([], left)
choose (item ∷ rest) left =
    let skip = choose rest left in
    let amount = min_ℤ (free item) left in
    let taken =
      cons_allocation (record { warehouse_id = item.warehouse_id; quantity = amount })
        (choose rest (left -ℤ amount)) in
    if is_zero left
    then ([], left)
    else if is_skipped item
    then skip
    else if leb_ℤ (free item) (pos 0)
    then skip
    else taken

unfoldable pub plan_allocations : List BinView → ℤ → Result ValueError (List Allocation × ℤ)
plan_allocations bins quantity =
    if ltb_ℤ quantity (pos 0) then err negative_quantity else ok (choose (sort_bins bins) quantity)
