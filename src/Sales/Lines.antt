-- ===== src/Sales/Lines.antt =====
-- The lines of an order that was ingested have no SKU, and what the ledger does with such lines.
use cross_pilot.Prelude.Result.{ok}
use cross_pilot.Prelude.Int.{ℤ}
use cross_pilot.Prelude.{
  ◌==◌, Bool-cases, All, ℕ, suc, ◌≡◌, refl, ◌∙◌, inl, inr, none, List, [], ◌∷◌, ◌++◌,
}
use cross_pilot.Ledger.Exec.{Session, Exec, gets, ◌>>=◌, for_each}
use cross_pilot.Ledger.Exec.Runs.{run_ok}
use cross_pilot.Ledger.Tables.{OrderItem, get_for_item, list_items}
use cross_pilot.Ledger.Orders.{
  with_sku, reserve_item, flush_enqueue, reserve_order, ship_line, ship_order,
}
use cross_pilot.Stock.Push.{should_reserve_line}
use cross_pilot.Sales.Upsert.{without_items, new_items}

-- None of an order's lines has a SKU.
abbrev pub NoSkus : ℕ → List OrderItem → Type 0
NoSkus id items = All (λ item. item.sku_id ≡ none) (list_items id items)

new_items-NoSkus : (n id i : ℕ) (quantities : List ℤ) → NoSkus i (new_items n id quantities)
unfolding list_items new_items
new_items-NoSkus n id i [] = tt
new_items-NoSkus n id i (q ∷ quantities) = elim (Bool-cases (id == i)) [
  | inl e ↦ rw e (refl, new_items-NoSkus (suc n) id i quantities)
  | inr e ↦ rw e (new_items-NoSkus (suc n) id i quantities)
]

pub replaced-NoSkus :
    (id n : ℕ) (items : List OrderItem) (quantities : List ℤ)
    → NoSkus id (without_items id items ++ new_items n id quantities)
unfolding list_items without_items
replaced-NoSkus id n [] quantities = new_items-NoSkus n id id quantities
replaced-NoSkus id n (item ∷ items) quantities = elim (Bool-cases (item.order_id == id)) [
  | inl e ↦ rw e (replaced-NoSkus id n items quantities)
  | inr e ↦ rw (e, e) (replaced-NoSkus id n items quantities)
]

-- The guard of the loops over an order's lines passes over a line without a SKU.
skipped :
    (item : OrderItem) (body : ℕ → Exec (Unit {0}))
    → item.sku_id ≡ none
    → (s : Session) → with_sku item body s ≡ (ok tt, s)
unfolding should_reserve_line
skipped item body h s = rw h refl

for_each-skipped :
    (body : OrderItem → ℕ → Exec (Unit {0})) (items : List OrderItem) (s : Session)
    → All (λ item. item.sku_id ≡ none) items
    → for_each (λ item. with_sku item (body item)) items s ≡ (ok tt, s)
unfolding for_each
for_each-skipped body [] s h = refl
for_each-skipped body (item ∷ items) s h =
    run_ok (with_sku item (body item)) _ s s tt (skipped item (body item) h.0 s)
    ∙ for_each-skipped body items s h.1

-- An order whose lines have no SKU reserves nothing and ships nothing: only the pushes that were
-- due are handed over.
pub orders-skipped :
    (id : ℕ) (s : Session)
    → NoSkus id s.items
    → (reserve_order id s ≡ flush_enqueue s) × (ship_order id s ≡ flush_enqueue s)
unfolding reserve_order ship_order
orders-skipped id s h = (
  run_ok (gets (λ t. list_items id t.items)) _ s s (list_items id s.items) refl
      ∙ run_ok _ (λ _. flush_enqueue) s s tt
          (for_each-skipped reserve_item (list_items id s.items) s h),
  run_ok (gets (λ t. list_items id t.items)) _ s s (list_items id s.items) refl
      ∙ run_ok _ (λ _. flush_enqueue) s s tt
          (for_each-skipped
            (λ item sku_id. gets (λ t. get_for_item item.id t.holds) >>= ship_line item sku_id)
            (list_items id s.items) s h),
)
