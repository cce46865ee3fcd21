-- ===== src/Stock/Push.antt =====
-- The numbers and batches that are sent to a platform, of backend/app/engines/inventory.py.
-- A `datetime` is its microseconds since an epoch, with a flag that says whether it has a time zone.
pub mod Chunks
use cross_pilot.Prelude.Result.{Result, ok, err}
use cross_pilot.Prelude.Int.{ℤ, pos, pos_part, ◌-ℤ◌, ◌*ℤ◌, ltb_ℤ, max_ℤ}
use cross_pilot.Prelude.{
  ltb, if◌then◌else◌, length, take, drop, ℕ, zero, suc, ◌+◌, Bool, false, not, ◌||◌, Option, none,
  some, List, [], ◌∷◌,
}

pub data ValueError : Type 0 where
  negative_push bad_batch_limit bad_lag naive_time : ValueError

unfoldable pub sellable_qty : ℤ → ℤ → ℤ → ℤ
sellable_qty available occupied safe_stock = max_ℤ (available -ℤ occupied -ℤ safe_stock) (pos 0)

unfoldable pub platform_push_quantity : ℤ → ℤ → Result ValueError ℤ
platform_push_quantity on_hand_free platform_safety =
    if ltb_ℤ on_hand_free (pos 0) || ltb_ℤ platform_safety (pos 0)
    then err negative_push
    else ok (max_ℤ (on_hand_free -ℤ platform_safety) (pos 0))

pub record DateTime : Type 0 where
  pub aware : Bool
  pub micros : ℤ

abbrev pub basis_of : Option DateTime → DateTime → DateTime
basis_of none anchor = anchor
basis_of (some at) anchor = at

unfoldable pub should_push_zero : Option DateTime → DateTime → DateTime → ℤ → Result ValueError Bool
should_push_zero last_success_at anchor now lag_seconds =
    let basis = basis_of last_success_at anchor in
    if ltb_ℤ lag_seconds (pos 1)
    then err bad_lag
    else if not basis.aware || not now.aware
    then err naive_time
    else ok (ltb_ℤ (lag_seconds *ℤ pos 1_000_000) (now.micros -ℤ basis.micros))

-- `items[index : index + batch_limit]` for each index of `range(0, len(items), batch_limit)`; the
-- first argument bounds the number of slices.
unfoldable pub slices {ℓ} : {A : Type ℓ} → ℕ → ℕ → ℕ → List A → List (List A)
slices zero index limit items = []
slices (suc fuel) index limit items =
    let rest = slices fuel (index + limit) limit items in
    if ltb index (length items) then take limit (drop index items) ∷ rest else []

unfoldable pub chunk_updates : {A : Type 0} → List A → ℤ → Result ValueError (List (List A))
chunk_updates items batch_limit =
    if ltb_ℤ batch_limit (pos 1)
    then err bad_batch_limit
    else ok (slices (length items) 0 (pos_part batch_limit) items)

unfoldable pub should_reserve_line : Option ℕ → ℤ → Bool
should_reserve_line none quantity = false
should_reserve_line (some sku_id) quantity = ltb_ℤ (pos 0) quantity
