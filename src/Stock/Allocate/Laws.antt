-- ===== src/Stock/Allocate/Laws.antt =====
-- What a plan promises: nothing is lost, and no more is lacking than must be.
use mathlib.Core.List.{Memᴰ}
use cross_pilot.Prelude.Result.{ok}
use cross_pilot.Prelude.{
  Bool-cases, All, All-map, ℕ, ◌-◌, ◌≡◌, refl, ap, ◌∙◌, inl, inr, false, List, [], ◌∷◌, arith,
}
use cross_pilot.Prelude.Int.{
  ℤ, pos, pos_part, neg_part, ◌+ℤ◌, ◌-ℤ◌, ◌≤ℤ◌, ltb_ℤ, leb_ℤ, min_ℤ, int_laws,
}
use cross_pilot.Stock.Allocate.{
  BinView, Allocation, free, key_lt, insert_bin, sort_bins, is_skipped, is_zero, cons_allocation,
  choose, plan_allocations,
}
use cross_pilot.Stock.Allocate.Sorting.{usable, capacity, capacity-sort_bins}

unfoldable pub total : List Allocation → ℤ
total [] = pos 0
total (a ∷ rest) = a.quantity +ℤ total rest

-- what is lacking from a quantity when so much can be given
abbrev pub lacking : ℕ → ℕ → ℕ
lacking n can = n - can

-- What is left of `n` after taking from a bin with `f` free.
left_after :
    (n : ℕ) (f : ℤ)
    → leb_ℤ f (pos 0) ≡ false
    → pos n -ℤ min_ℤ f (pos n) ≡ pos (n - (pos_part f - neg_part f))
unfolding ◌-ℤ◌
left_after n f h = ground arith

choose-lacking :
    (bins : List BinView) (n : ℕ) → (choose bins (pos n)).1 ≡ pos (lacking n (capacity bins))
unfolding choose capacity
choose-lacking [] n = ground arith
choose-lacking (item ∷ rest) n =
    ground (
      arith,
      choose-lacking rest n,
      choose-lacking rest (n - usable item),
      left_after n (free item),
    )

total-cons_allocation :
    (a : Allocation) (r : List Allocation × ℤ) (left : ℤ)
    → total r.0 +ℤ r.1 ≡ left -ℤ a.quantity
    → total (cons_allocation a r).0 +ℤ (cons_allocation a r).1 ≡ left
unfolding total
total-cons_allocation a r left h = omega (int_laws, ap pos_part h, ap neg_part h)

total-choose :
    (bins : List BinView) (left : ℤ) → total (choose bins left).0 +ℤ (choose bins left).1 ≡ left
unfolding choose
total-choose [] left = unfold total in omega int_laws
total-choose (item ∷ rest) left = elim (Bool-cases (is_zero left)) [
  | inl z ↦ rw z (unfold total in omega int_laws)
  | inr nz ↦ rw nz (elim (Bool-cases (is_skipped item)) [
    | inl s ↦ rw s (total-choose rest left)
    | inr ns ↦ rw ns (elim (Bool-cases (leb_ℤ (free item) (pos 0))) [
      | inl full ↦ rw full (total-choose rest left)
      | inr room ↦ rw room (
          total-cons_allocation
            (record { warehouse_id = item.warehouse_id; quantity = min_ℤ (free item) left })
            (choose rest (left -ℤ min_ℤ (free item) left)) left
            (total-choose rest (left -ℤ min_ℤ (free item) left)))
    ])
  ])
]

-- A plan for a quantity that is not negative loses nothing: what is chosen and what is lacking add
-- up to it. And it lacks no more than it must: exactly what the bins that are not skipped cannot
-- give together, whatever their order.
pub plan_exact :
    (bins : List BinView) (n : ℕ)
    → (chosen : List Allocation) × (plan_allocations bins (pos n)
        ≡ ok (chosen, pos (lacking n (capacity bins))))
      × (total chosen +ℤ pos (lacking n (capacity bins)) ≡ pos n)
unfolding plan_allocations
plan_exact bins n =
    let sorted = sort_bins bins in
    let e : (choose sorted (pos n)).1 ≡ pos (lacking n (capacity bins)) =
      choose-lacking sorted n ∙ ap (λ c. pos (lacking n c)) (capacity-sort_bins bins) in
    let fine : ltb_ℤ (pos n) (pos 0) ≡ false = ground arith in
    ((choose sorted (pos n)).0, rw (fine, ← e), rw (← e) (total-choose sorted (pos n)))

-- An entry of a plan takes something, and no more than its bin has free, from a bin of the list
-- that is not skipped.
abbrev pub ComesFrom : List BinView → Allocation → Type 0
ComesFrom bins a =
    (item : BinView) × Memᴰ item bins
    × (item.warehouse_id ≡ a.warehouse_id)
    × (is_skipped item ≡ false)
    × (pos 1 ≤ℤ a.quantity)
    × (a.quantity ≤ℤ free item)

comes_later :
    (item : BinView) (bins : List BinView) (a : Allocation)
    → ComesFrom bins a
    → ComesFrom (item ∷ bins) a
comes_later item bins a (x, m, w, s, lo, hi) = (x, Memᴰ.tail m, w, s, lo, hi)

rest_nonneg : (f left : ℤ) → pos 0 ≤ℤ left → pos 0 ≤ℤ left -ℤ min_ℤ f left
unfolding ◌-ℤ◌
rest_nonneg f left h = ground arith

choose-ComesFrom :
    (bins : List BinView) (left : ℤ) → pos 0 ≤ℤ left → All (ComesFrom bins) (choose bins left).0
unfolding choose
choose-ComesFrom [] left h = tt
choose-ComesFrom (item ∷ rest) left h =
    let amount = min_ℤ (free item) left in
    let weaken = λ (l : List Allocation) (p : All (ComesFrom rest) l).
      All-map (ComesFrom rest) (ComesFrom (item ∷ rest)) l (comes_later item rest) p in
    let later = weaken _ (choose-ComesFrom rest left h) in
    let further =
      weaken _ (choose-ComesFrom rest (left -ℤ amount) (rest_nonneg (free item) left h)) in
    elim (Bool-cases (is_zero left)) [
      | inl z ↦ rw z tt
      | inr nz ↦ rw nz (elim (Bool-cases (is_skipped item)) [
        | inl s ↦ rw s later
        | inr ns ↦ rw ns (elim (Bool-cases (leb_ℤ (free item) (pos 0))) [
          | inl full ↦ rw full later
          | inr room ↦
              rw room ((item, Memᴰ.head refl, refl, ns, ground arith, ground arith), further)
        ])
      ])
    ]

mem_under {ℓ} :
    {A : Type ℓ} (x a : A) (xs ys : List A)
    → (Memᴰ x xs → Memᴰ x ys)
    → Memᴰ x (a ∷ xs)
    → Memᴰ x (a ∷ ys)
mem_under x a xs ys f (Memᴰ.head e) = Memᴰ.head e
mem_under x a xs ys f (Memᴰ.tail m) = Memᴰ.tail (f m)

mem_swap {ℓ} : {A : Type ℓ} (x a b : A) (xs : List A) → Memᴰ x (a ∷ b ∷ xs) → Memᴰ x (b ∷ a ∷ xs)
mem_swap x a b xs (Memᴰ.head e) = Memᴰ.tail (Memᴰ.head e)
mem_swap x a b xs (Memᴰ.tail (Memᴰ.head e)) = Memᴰ.head e
mem_swap x a b xs (Memᴰ.tail (Memᴰ.tail m)) = Memᴰ.tail (Memᴰ.tail m)

mem-insert_bin :
    (x item : BinView) (bins : List BinView) → Memᴰ x (insert_bin item bins) → Memᴰ x (item ∷ bins)
unfolding insert_bin
mem-insert_bin x item [] m = m
mem-insert_bin x item (other ∷ rest) m = elim (Bool-cases (key_lt other item)) [
  | inl below ↦ mem_swap x other item rest (
      mem_under x other (insert_bin item rest) (item ∷ rest) (mem-insert_bin x item rest)
        (rw below at m))
  | inr front ↦ rw front at m
]

mem-sort_bins : (x : BinView) (bins : List BinView) → Memᴰ x (sort_bins bins) → Memᴰ x bins
unfolding sort_bins
mem-sort_bins x [] m = m
mem-sort_bins x (item ∷ rest) m =
    mem_under x item (sort_bins rest) rest (mem-sort_bins x rest)
      (mem-insert_bin x item (sort_bins rest) m)

from_unsorted :
    (bins : List BinView) (a : Allocation) → ComesFrom (sort_bins bins) a → ComesFrom bins a
from_unsorted bins a (x, m, w, s, lo, hi) = (x, mem-sort_bins x bins m, w, s, lo, hi)

-- Whatever is planned, each entry takes at least one piece and no more than its bin has free, from
-- a bin of the list that is the default one or no platform warehouse.
pub plan-ComesFrom :
    (bins : List BinView) (quantity : ℤ) {r : List Allocation × ℤ}
    → plan_allocations bins quantity ≡ ok r
    → All (ComesFrom bins) r.0
unfolding plan_allocations
plan-ComesFrom bins quantity {r} h = elim (Bool-cases (ltb_ℤ quantity (pos 0))) [
  | inl negative ↦ cc (rw negative at h)
  | inr fine ↦
      let e : choose (sort_bins bins) quantity ≡ r = ground (arith, rw fine at h) in
      All-map (ComesFrom (sort_bins bins)) (ComesFrom bins) r.0 (from_unsorted bins)
        (rw e at (choose-ComesFrom (sort_bins bins) quantity (ground arith)))
]
