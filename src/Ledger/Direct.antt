-- ===== src/Ledger/Direct.antt =====
-- Changes of one row from outside the orders: `_ensure`, `adjust` and `post_stock` of
-- backend/app/services/inventory.py.
pub mod Sound
use cross_pilot.Prelude.{
  if◌then◌else◌, ℕ, suc, Bool, true, false, not, ◌&&◌, Option, none, some, [], ◌∷◌, ◌++◌,
}
use cross_pilot.Ledger.Tables.{
  Inventory, FlowType, inbound, outbound, adjust, Delta, no_delta, default_safe_stock, get_pair,
  find_warehouse,
}
use cross_pilot.Ledger.Exec.{
  not_found, param_invalid, Exec, pure, gets, modify, or_raise, raise_when, ◌>>=◌, ◌>>◌,
}
use cross_pilot.Ledger.Change.{available, occupied, in_transit, defective, has_sku, commit_change}
use cross_pilot.Ledger.Orders.{flush_enqueue}
use cross_pilot.Stock.Allocate.{is_zero}
use cross_pilot.Prelude.Int.{ℤ, pos, negate, ltb_ℤ, leb_ℤ}
use cross_pilot.Prelude.Text.{String, str_eq}

unfoldable pub new_row : ℕ → ℕ → ℕ → Inventory
new_row id sku_id warehouse_id = record {
  id = id;
  sku_id = sku_id;
  warehouse_id = warehouse_id;
  available = pos 0;
  occupied = pos 0;
  in_transit = pos 0;
  defective = pos 0;
  safe_stock = default_safe_stock;
  version = 0;
}

unfoldable pub insert_row : Inventory → Exec (Unit {0})
insert_row row =
    modify (λ s. record s { inventories = s.inventories ++ row ∷ []; next_id = suc s.next_id })

-- The row that was found, or a new one. Another transaction that adds the same row first is left out.
unfoldable pub found_or_new : ℕ → ℕ → Option Inventory → Exec Inventory
found_or_new sku_id warehouse_id (some row) = pure row
found_or_new sku_id warehouse_id none = do
  id ← gets (λ s. s.next_id)
  insert_row (new_row id sku_id warehouse_id)
  pure (new_row id sku_id warehouse_id)

unfoldable pub ensure : ℕ → ℕ → Exec Inventory
ensure sku_id warehouse_id = do
  known ← gets (λ s. has_sku sku_id s.skus)
  raise_when (not known) not_found
  w ← gets (λ s. find_warehouse warehouse_id s.warehouses)
  or_raise w not_found
  o ← gets (λ s. get_pair sku_id warehouse_id s.inventories)
  found_or_new sku_id warehouse_id o

-- The kinds of `InventoryAdjust`.
pub data AdjustKind : Type 0 where
  kind_inbound kind_outbound kind_to_defective kind_adjust : AdjustKind

-- `_adjust_deltas`; the bucket is the available goods in each case
unfoldable pub adjust_deltas : AdjustKind → ℤ → Delta × FlowType
adjust_deltas kind_inbound q = (record no_delta { available = q }, inbound)
adjust_deltas kind_outbound q = (record no_delta { available = negate q }, outbound)
adjust_deltas kind_to_defective q =
    (record no_delta { available = negate q; defective = q }, adjust)
adjust_deltas kind_adjust q = (record no_delta { available = q }, adjust)

abbrev pub is_adjust : AdjustKind → Bool
is_adjust kind_adjust = true
is_adjust kind = false

unfoldable pub abs : ℤ → ℤ
abs q = if ltb_ℤ q (pos 0) then negate q else q

-- `payload.ref_type or "ADJUST"`
abbrev pub ref_or_adjust : Option String → String
ref_or_adjust none = "ADJUST"
ref_or_adjust (some text) = if str_eq text "" then "ADJUST" else text

unfoldable pub adjust_stock : ℕ → ℕ → AdjustKind → ℤ → Option String → Option ℕ → Exec Inventory
adjust_stock sku_id warehouse_id kind quantity ref_type ref_id = do
  raise_when (not (is_adjust kind) && leb_ℤ quantity (pos 0)) param_invalid
  raise_when (is_adjust kind && is_zero quantity) param_invalid
  row ← ensure sku_id warehouse_id
  fresh ←
      commit_change row
        (record {
          flow_type = (adjust_deltas kind quantity).1;
          quantity = abs quantity;
          before_name = available;
          ref_type = ref_or_adjust ref_type;
          ref_id = ref_id;
        })
        (adjust_deltas kind quantity).0
  flush_enqueue
  pure fresh

unfoldable pub post_available : Inventory → ℤ → String → Option ℕ → Exec Inventory
post_available row q ref_type ref_id =
    if is_zero q
    then pure row
    else commit_change row
        (record {
          flow_type = if ltb_ℤ (pos 0) q then inbound else outbound;
          quantity = abs q;
          before_name = available;
          ref_type = ref_type;
          ref_id = ref_id;
        })
        (record no_delta { available = q })

unfoldable pub post_transit : Inventory → ℤ → String → Option ℕ → Exec Inventory
post_transit row q ref_type ref_id =
    if is_zero q
    then pure row
    else commit_change row
        (record {
          flow_type = adjust;
          quantity = abs q;
          before_name = in_transit;
          ref_type = ref_type;
          ref_id = ref_id;
        })
        (record no_delta { in_transit = q })

unfoldable pub post_stock : ℕ → ℕ → ℤ → ℤ → String → Option ℕ → Exec (Unit {0})
post_stock sku_id warehouse_id available_q transit_q ref_type ref_id =
    if is_zero available_q && is_zero transit_q then pure tt else (do
      row ← ensure sku_id warehouse_id
      row' ← post_available row available_q ref_type ref_id
      post_transit row' transit_q ref_type ref_id
      flush_enqueue)
