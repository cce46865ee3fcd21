-- ===== src/Ledger/Draw/Drawing.antt =====
-- What `_draw` returns: the entries it took and the rest add up to what it was asked for.
use cross_pilot.Ledger.Exec.Yields.{
  OnOk, Yields, Yields-pure, Yields-raise, Yields-bind, Yields-after,
}
use mathlib.Core.Path.{subst}
use cross_pilot.Ledger.Draw.{
  bins_of, Mode, Drawn, take_entry, draw_entry, take_plan, lift_plan, draw_planned, draw_loop, draw,
}
use cross_pilot.Ledger.Change.{Status, applied, conflict, insufficient, missing, version_retries}
use cross_pilot.Ledger.Exec.{Session, Exec}
use cross_pilot.Ledger.Tables.{Warehouse, Inventory}
use cross_pilot.Stock.Allocate.{BinView, Allocation, is_zero, plan_allocations}
use cross_pilot.Stock.Allocate.Laws.{total, plan_exact, ComesFrom, plan-ComesFrom}
use cross_pilot.Prelude.Result.{Result, ok, err}
use cross_pilot.Prelude.{
  Bool-cases, All, All-map, ℕ, zero, suc, ◌≡◌, refl, ap, inl, inr, false, Option, none, some, List,
  [], ◌∷◌, ◌++◌, arith,
}
use cross_pilot.Prelude.Int.{ℤ, pos, negsuc, pos_part, neg_part, ◌+ℤ◌, ◌-ℤ◌, ◌≤ℤ◌, int_laws}

abbrev pub AddsUp : ℤ → Drawn → Type 0
AddsUp quantity (taken, left) = (total taken +ℤ left ≡ quantity) × (pos 0 ≤ℤ left)

total-snoc :
    (taken : List Allocation) (a : Allocation) → total (taken ++ a ∷ []) ≡ total taken +ℤ a.quantity
unfolding total
total-snoc [] a = omega int_laws
total-snoc (b ∷ taken) a = grind (int_laws, total-snoc taken a)

-- What a plan may take from what is left.
abbrev Within : List Allocation → ℤ → Type 0
Within plan left = All (λ a. pos 1 ≤ℤ a.quantity) plan × (total plan ≤ℤ left)

total_nonneg : (plan : List Allocation) → All (λ a. pos 1 ≤ℤ a.quantity) plan → pos 0 ≤ℤ total plan
unfolding total
total_nonneg [] h = omega int_laws
total_nonneg (a ∷ plan) (h, hs) = omega (int_laws, total_nonneg plan hs)

taken_more :
    (quantity : ℤ) (taken : List Allocation) (left : ℤ) (a : Allocation) (plan : List Allocation)
    → AddsUp quantity (taken, left)
    → Within (a ∷ plan) left
    → AddsUp quantity (taken ++ a ∷ [], left -ℤ a.quantity) × Within plan (left -ℤ a.quantity)
taken_more quantity taken left a plan (sum, rest) ((h, hs), fit) = (
  (
    grind (int_laws, total-snoc taken a),
    unfold total in omega (int_laws, total_nonneg plan hs, fit),
  ),
  (hs, unfold total in omega (int_laws, fit)),
)

-- What a step of the loop gives back, whether it conflicted or not.
take_entry-AddsUp :
    (mode : Mode) (order_id : ℕ) (quantity : ℤ) (alloc : Allocation) (plan : List Allocation)
    (row : Inventory) (drawn : Drawn) (r : Status × Option Inventory)
    → AddsUp quantity drawn
    → Within (alloc ∷ plan) drawn.1
    → Yields
        (λ c. AddsUp quantity c.1 × ((c.0 ≡ false) → Within plan c.1.1))
        (take_entry mode order_id alloc row drawn r)
unfolding take_entry
take_entry-AddsUp mode order_id quantity alloc plan row (taken, left) (applied, some fresh) sum
      fit =
    let (more, rest) = taken_more quantity taken left alloc plan sum fit in
    Yields-after _ _ _ (λ _. Yields-pure _ _ (more, λ _. rest))
take_entry-AddsUp mode order_id quantity alloc plan row drawn (applied, none) sum fit =
    Yields-pure _ _ (sum, λ e. cc e)
take_entry-AddsUp mode order_id quantity alloc plan row drawn (conflict, o) sum fit =
    Yields-pure _ _ (sum, λ e. cc e)
take_entry-AddsUp mode order_id quantity alloc plan row drawn (insufficient, o) sum fit =
    Yields-pure _ _ (sum, λ e. cc e)
take_entry-AddsUp mode order_id quantity alloc plan row drawn (missing, o) sum fit =
    Yields-pure _ _ (sum, λ e. cc e)

draw_entry-AddsUp :
    (mode : Mode) (order_id : ℕ) (quantity : ℤ) (alloc : Allocation) (plan : List Allocation)
    (row : Inventory) (drawn : Drawn)
    → AddsUp quantity drawn
    → Within (alloc ∷ plan) drawn.1
    → Yields
        (λ c. AddsUp quantity c.1 × ((c.0 ≡ false) → Within plan c.1.1))
        (draw_entry mode order_id alloc row drawn)
unfolding draw_entry
draw_entry-AddsUp mode order_id quantity alloc plan row drawn sum fit =
    Yields-after _ _ _
      (λ r. take_entry-AddsUp mode order_id quantity alloc plan row drawn r sum fit)

take_plan-AddsUp :
    (mode : Mode) (order_id : ℕ) (quantity : ℤ) (pairs : List (Inventory × Warehouse))
    (plan : List Allocation) (drawn : Drawn)
    → AddsUp quantity drawn
    → Within plan drawn.1
    → Yields (λ c. AddsUp quantity c.1) (take_plan mode order_id pairs plan drawn)
unfolding take_plan
take_plan-AddsUp mode order_id quantity pairs [] drawn sum fit = Yields-pure _ _ sum
take_plan-AddsUp mode order_id quantity pairs (alloc ∷ plan) drawn sum fit =
    Yields-after _ _ _ (λ row.
      Yields-bind _ _ _ _ (draw_entry-AddsUp mode order_id quantity alloc plan row drawn sum fit)
        (λ (conflicted, drawn') (sum', fit'). elim (Bool-cases conflicted) [
          | inl e ↦ rw e (Yields-pure _ _ sum')
          | inr e ↦ rw e (take_plan-AddsUp mode order_id quantity pairs plan drawn' sum' (fit' e))
        ]))

-- A plan for what is left takes no more than that.
plan-Within :
    (bins : List BinView) (left : ℤ) (plan : Drawn)
    → pos 0 ≤ℤ left
    → plan_allocations bins left ≡ ok plan
    → Within plan.0 left
plan-Within bins (pos n) plan h e =
    let (chosen, e', sum) = plan_exact bins n in
    let same : plan.0 ≡ chosen = cc (e, e') in
    (
      All-map (ComesFrom bins) (λ a. pos 1 ≤ℤ a.quantity) plan.0 (λ a (x, m, w, s, lo, hi). lo)
          (plan-ComesFrom bins (pos n) e),
      rw same (omega (int_laws, ap pos_part sum, ap neg_part sum)),
    )
plan-Within bins (negsuc n) plan h e = absurd (omega (arith, h))

lift_plan-Yields : {E : Type 0} (r : Result E Drawn) → Yields (λ plan. r ≡ ok plan) (lift_plan r)
lift_plan-Yields (ok plan) = Yields-pure _ _ refl
lift_plan-Yields (err e) = Yields-raise _ _

draw_planned-AddsUp :
    (again : Drawn → Exec Drawn) (mode : Mode) (order_id : ℕ) (quantity : ℤ)
    (pairs : List (Inventory × Warehouse)) (plan : List Allocation) (drawn : Drawn)
    → ((d : Drawn) → AddsUp quantity d → Yields (AddsUp quantity) (again d))
    → AddsUp quantity drawn
    → Within plan drawn.1
    → Yields (AddsUp quantity) (draw_planned again mode order_id pairs plan drawn)
unfolding draw_planned
draw_planned-AddsUp again mode order_id quantity pairs [] drawn k sum fit = Yields-pure _ _ sum
draw_planned-AddsUp again mode order_id quantity pairs (alloc ∷ plan) drawn k sum fit =
    Yields-bind _ _ _ _ (take_plan-AddsUp mode order_id quantity pairs (alloc ∷ plan) drawn sum fit)
      (λ (conflicted, drawn') sum'. elim (Bool-cases conflicted) [
        | inl e ↦ rw e (k drawn' sum')
        | inr e ↦ rw e (Yields-pure _ _ sum')
      ])

draw_loop-AddsUp :
    (rounds sku_id : ℕ) (mode : Mode) (order_id : ℕ) (quantity : ℤ) (drawn : Drawn)
    → AddsUp quantity drawn
    → Yields (AddsUp quantity) (draw_loop rounds sku_id mode order_id drawn)
unfolding draw_loop
draw_loop-AddsUp zero sku_id mode order_id quantity drawn sum = Yields-pure _ _ sum
draw_loop-AddsUp (suc rounds) sku_id mode order_id quantity drawn sum =
    elim (Bool-cases (is_zero drawn.1)) [
      | inl z ↦ rw z (Yields-pure _ _ sum)
      | inr nz ↦ rw nz (
          Yields-after _ _ _ (λ pairs.
            Yields-bind _ _ _ _ (lift_plan-Yields (plan_allocations (bins_of pairs) drawn.1))
              (λ plan e.
                draw_planned-AddsUp (λ d. draw_loop rounds sku_id mode order_id d) mode order_id
                  quantity pairs plan.0 drawn
                  (λ d h. draw_loop-AddsUp rounds sku_id mode order_id quantity d h) sum
                  (plan-Within (bins_of pairs) drawn.1 plan sum.1 e))))
    ]

-- Whatever other transactions commit meanwhile, `_draw` of a quantity that is not negative either
-- raises, or returns entries and a rest which is not negative, and they add up to the quantity.
pub draw_adds_up :
    (sku_id n : ℕ) (mode : Mode) (order_id : ℕ) (s : Session) (taken : List Allocation) (left : ℤ)
    (s' : Session)
    → draw sku_id (pos n) mode order_id s ≡ (ok (taken, left), s')
    → (total taken +ℤ left ≡ pos n) × (pos 0 ≤ℤ left)
unfolding draw
draw_adds_up sku_id n mode order_id s taken left s' e =
    let started : AddsUp (pos n) ([], pos n) = (unfold total in omega int_laws, omega arith) in
    let y = draw_loop-AddsUp version_retries sku_id mode order_id (pos n) ([], pos n) started in
    let e0 : (draw sku_id (pos n) mode order_id s).0 ≡ ok (taken, left) = ap (λ r. r.0) e in
    subst (λ r. OnOk (AddsUp (pos n)) r) e0 (y.at s)
