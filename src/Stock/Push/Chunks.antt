-- ===== src/Stock/Push/Chunks.antt =====
-- The batches hold all updates, in order, and none is longer than the platform's limit.
use mathlib.Core.List.{flatten}
use cross_pilot.Prelude.Result.{ok}
use cross_pilot.Prelude.Int.{pos, ltb_ℤ}
use cross_pilot.Prelude.{
  ltb, Bool-cases, length, take, drop, take-append-drop, length-take, length-drop, All, ℕ, zero,
  suc, ◌+◌, ◌≤◌, ◌<◌, ◌≡◌, refl, sym, ap, ◌∙◌, inl, inr, false, List, [], ◌∷◌, ◌++◌, arith,
}
use cross_pilot.Stock.Push.{slices, chunk_updates}

drop-nil {ℓ} : {A : Type ℓ} (n : ℕ) → drop {A = A} n [] ≡ []
drop-nil zero = refl
drop-nil (suc n) = refl

-- Dropping further, by a bound that is named.
drop-drop {ℓ} : {A : Type ℓ} (m n k : ℕ) (xs : List A) → n + m ≡ k → drop m (drop n xs) ≡ drop k xs
drop-drop m zero k xs e = ap (λ j. drop j xs) (omega arith)
drop-drop m (suc n) k [] e = drop-nil m ∙ sym (drop-nil k)
drop-drop m (suc n) zero (x ∷ xs) e = absurd (omega arith)
drop-drop m (suc n) (suc k) (x ∷ xs) e = drop-drop m n k xs (omega arith)

drop_all {ℓ} : {A : Type ℓ} (n : ℕ) (xs : List A) → length xs ≤ n → drop n xs ≡ []
drop_all zero [] h = refl
drop_all zero (x ∷ xs) h = absurd (omega arith)
drop_all (suc n) [] h = refl
drop_all (suc n) (x ∷ xs) h = drop_all n xs (omega arith)

abbrev pub FitsIn {ℓ} : {A : Type ℓ} → ℕ → List A → Type 0
FitsIn limit chunk = (1 ≤ length chunk) × (length chunk ≤ limit)

flatten-slices {ℓ} :
    {A : Type ℓ} (fuel index limit : ℕ) (items : List A)
    → 1 ≤ limit
    → length items ≤ index + fuel
    → flatten (slices fuel index limit items) ≡ drop index items
unfolding slices flatten
flatten-slices zero index limit items h e = sym (drop_all index items (omega arith))
flatten-slices (suc fuel) index limit items h e =
    let rest =
      flatten-slices fuel (index + limit) limit items h (omega arith)
      ∙ sym (drop-drop limit index (index + limit) items refl) in
    elim (Bool-cases (ltb index (length items))) [
      | inl more ↦ rw more (
          ap (λ l. take limit (drop index items) ++ l) rest
          ∙ take-append-drop limit (drop index items))
      | inr done ↦ rw done (sym (drop_all index items (ground arith)))
    ]

one_to_limit {ℓ} :
    {A : Type ℓ} (index limit : ℕ) (items : List A)
    → 1 ≤ limit
    → index < length items
    → FitsIn limit (take limit (drop index items))
one_to_limit index limit items h more =
    let e = length-take limit (drop index items) in
    let e' = length-drop index items in (omega (arith, e, e'), omega (arith, e, e'))

FitsIn-slices {ℓ} :
    {A : Type ℓ} (fuel index limit : ℕ) (items : List A)
    → 1 ≤ limit
    → All (FitsIn limit) (slices fuel index limit items)
unfolding slices
FitsIn-slices zero index limit items h = tt
FitsIn-slices (suc fuel) index limit items h = elim (Bool-cases (ltb index (length items))) [
  | inl more ↦ rw more (
    one_to_limit index limit items h (ground arith),
    FitsIn-slices fuel (index + limit) limit items h,
  )
  | inr done ↦ rw done tt
]

-- For a limit of at least one the batches, put together again, are the updates in their order; each
-- has at least one update and no more than the limit allows.
pub chunk_updates_lem :
    {A : Type 0} (items : List A) (n : ℕ)
    → (chunks : List (List A)) × (chunk_updates items (pos (suc n)) ≡ ok chunks)
      × (flatten chunks ≡ items)
      × All (FitsIn (suc n)) chunks
unfolding chunk_updates
chunk_updates_lem items n =
    let fine : ltb_ℤ (pos (suc n)) (pos 1) ≡ false = ground arith in
    (
      slices (length items) 0 (suc n) items,
      rw fine,
      flatten-slices (length items) 0 (suc n) items (omega arith) (omega arith),
      FitsIn-slices (length items) 0 (suc n) items (omega arith),
    )
