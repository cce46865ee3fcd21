-- ===== src/Stock/Allocate/Sorting.antt =====
-- The ranking of the bins only reorders them.
use cross_pilot.Prelude.{
  if◌then◌else◌, Bool-cases, ℕ, ◌+◌, ◌-◌, ◌≡◌, refl, ap, ◌∙◌, inl, inr, List, [], ◌∷◌, arith,
}
use cross_pilot.Prelude.Int.{pos_part, neg_part}
use cross_pilot.Stock.Allocate.{BinView, free, key_lt, insert_bin, sort_bins, is_skipped}

-- What a bin can give: nothing if it is skipped or has nothing free.
abbrev pub usable : BinView → ℕ
usable item = if is_skipped item then 0 else pos_part (free item) - neg_part (free item)

-- What all bins can give together, in no particular order.
unfoldable pub capacity : List BinView → ℕ
capacity [] = 0
capacity (item ∷ rest) = usable item + capacity rest

capacity-insert_bin :
    (item : BinView) (bins : List BinView)
    → capacity (insert_bin item bins) ≡ usable item + capacity bins
unfolding capacity insert_bin
capacity-insert_bin item [] = refl
capacity-insert_bin item (other ∷ rest) = elim (Bool-cases (key_lt other item)) [
  | inl below ↦ rw below (omega (arith, capacity-insert_bin item rest))
  | inr front ↦ rw front refl
]

pub capacity-sort_bins : (bins : List BinView) → capacity (sort_bins bins) ≡ capacity bins
unfolding capacity sort_bins
capacity-sort_bins [] = refl
capacity-sort_bins (item ∷ rest) =
    capacity-insert_bin item (sort_bins rest) ∙ ap (λ n. usable item + n) (capacity-sort_bins rest)
