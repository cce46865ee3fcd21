-- ===== src/Purchase/Quantities.antt =====
-- What the quantities of purchase orders promise: goods in transit are counted once.
use cross_pilot.Prelude.Int.{ℤ, pos, ◌+ℤ◌, ◌-ℤ◌, ◌≤ℤ◌, ltb_ℤ, leb_ℤ, min_ℤ, int_laws}
use cross_pilot.Prelude.{
  Bool-cases, All, ◌≡◌, refl, ◌≢◌, ◌↔◌, ◌⊎◌, inl, inr, Bool, true, false, not, ◌&&◌, List, [], ◌∷◌,
  arith,
}
use cross_pilot.Purchase.{
  received, Disposition, receive, short_close, unknown, open_qty, ReceiptPlan, plan_receive, PoLine,
  is_settled, all_settled, any_counted, next_receipt_status,
}
use cross_pilot.Prelude.Result.{ok}

-- The open quantity read as an order: it is the difference where that is not negative.
OpenIs : ℤ → ℤ → ℤ → ℤ → Type 0
OpenIs ordered got short_qty q =
    ((got +ℤ short_qty ≤ℤ ordered) × (q ≡ ordered -ℤ got -ℤ short_qty))
    ⊎ ((ordered ≤ℤ got +ℤ short_qty) × (q ≡ pos 0))

open_qty-OpenIs :
    (ordered got short_qty : ℤ) → OpenIs ordered got short_qty (open_qty ordered got short_qty)
unfolding open_qty OpenIs
open_qty-OpenIs ordered got short_qty =
    elim (Bool-cases (ltb_ℤ (pos 0) (ordered -ℤ got -ℤ short_qty))) [
      | inl some_left ↦ rw some_left (inl (grind int_laws, refl))
      | inr none_left ↦ rw none_left (inr (grind int_laws, refl))
    ]

min_cases : (a b : ℤ) → ((a ≤ℤ b) × (min_ℤ a b ≡ a)) ⊎ ((b ≤ℤ a) × (min_ℤ a b ≡ b))
min_cases a b = elim (Bool-cases (ltb_ℤ b a)) [
  | inl below ↦ rw below (inr (ground arith, refl))
  | inr above ↦ rw above (inl (ground arith, refl))
]

open_after_receipt :
    (ordered got short_qty quantity : ℤ)
    → pos 1 ≤ℤ quantity
    → open_qty ordered (got +ℤ quantity) short_qty
      ≡ open_qty ordered got short_qty -ℤ min_ℤ quantity (open_qty ordered got short_qty)
unfolding OpenIs
open_after_receipt ordered got short_qty quantity h = grind (
  int_laws,
  open_qty-OpenIs ordered (got +ℤ quantity) short_qty,
  open_qty-OpenIs ordered got short_qty,
  min_cases quantity (open_qty ordered got short_qty),
)

open_after_close :
    (ordered got short_qty : ℤ)
    → leb_ℤ (open_qty ordered got short_qty) (pos 0) ≡ false
    → open_qty ordered got (short_qty +ℤ open_qty ordered got short_qty)
      ≡ open_qty ordered got short_qty -ℤ open_qty ordered got short_qty
unfolding OpenIs
open_after_close ordered got short_qty h = grind (
  int_laws,
  open_qty-OpenIs ordered got short_qty,
  open_qty-OpenIs ordered got (short_qty +ℤ open_qty ordered got short_qty),
)

-- Goods in transit are counted once: what a receipt releases from the transit is exactly what the
-- line has less open after it.
pub plan_receive-open :
    (ordered got short_qty quantity : ℤ) (how : Disposition) (allow_over : Bool) (p : ReceiptPlan)
    → plan_receive ordered got short_qty quantity how allow_over ≡ ok p
    → open_qty ordered p.new_received p.new_short
      ≡ open_qty ordered got short_qty -ℤ p.transit_release
unfolding plan_receive
plan_receive-open ordered got short_qty quantity unknown allow_over p e = absurd (cc e)
plan_receive-open ordered got short_qty quantity short_close allow_over p e =
    elim (Bool-cases (leb_ℤ (open_qty ordered got short_qty) (pos 0))) [
      | inl settled ↦ absurd (cc (rw settled at e))
      | inr rest ↦ let e' = rw rest at e in cc (e', open_after_close ordered got short_qty rest)
    ]
plan_receive-open ordered got short_qty quantity receive allow_over p e =
    let remaining = open_qty ordered got short_qty in
    elim (Bool-cases (leb_ℤ quantity (pos 0))) [
      | inl too_few ↦ absurd (cc (rw too_few at e))
      | inr some_qty ↦ elim (Bool-cases (ltb_ℤ remaining quantity && not allow_over)) [
        | inl over ↦ absurd (cc (rw (some_qty, over) at e))
        | inr fine ↦
            let e' = rw (some_qty, fine) at e in
            cc (e', open_after_receipt ordered got short_qty quantity (ground arith))
      ]
    ]

-- Without the caller's leave nobody receives more than was ordered: from numbers within the order,
-- every receipt leads to numbers within the order, and none of them shrinks.
pub plan_receive-Within :
    (ordered got short_qty quantity : ℤ) (how : Disposition) (p : ReceiptPlan)
    → got +ℤ short_qty ≤ℤ ordered
    → plan_receive ordered got short_qty quantity how false ≡ ok p
    → (p.new_received +ℤ p.new_short ≤ℤ ordered)
      × (got ≤ℤ p.new_received)
      × (short_qty ≤ℤ p.new_short)
unfolding plan_receive OpenIs
plan_receive-Within ordered got short_qty quantity unknown p h e = absurd (cc e)
plan_receive-Within ordered got short_qty quantity short_close p h e =
    elim (Bool-cases (leb_ℤ (open_qty ordered got short_qty) (pos 0))) [
      | inl settled ↦ absurd (cc (rw settled at e))
      | inr rest ↦
          let e' = rw rest at e in
          (let f : p.new_received ≡ got = cc e' in
            let k : p.new_short ≡ short_qty +ℤ open_qty ordered got short_qty = cc e' in
            rw (f, k) (grind (int_laws, open_qty-OpenIs ordered got short_qty)))
    ]
plan_receive-Within ordered got short_qty quantity receive p h e =
    let remaining = open_qty ordered got short_qty in
    elim (Bool-cases (leb_ℤ quantity (pos 0))) [
      | inl too_few ↦ absurd (cc (rw too_few at e))
      | inr some_qty ↦ elim (Bool-cases (ltb_ℤ remaining quantity)) [
        | inl over ↦ absurd (cc (rw (some_qty, over) at e))
        | inr fine ↦
            let e' = rw (some_qty, fine) at e in
            (let f : p.new_received ≡ got +ℤ quantity = cc e' in
              let k : p.new_short ≡ short_qty = cc e' in
              rw (f, k) (grind (int_laws, open_qty-OpenIs ordered got short_qty)))
      ]
    ]

abbrev pub Settled : PoLine → Type 0
Settled line = open_qty line.ordered line.received_qty line.short_qty ≡ pos 0

Settled-iff : (line : PoLine) → (is_settled line ≡ true) ↔ Settled line
Settled-iff line = zero_iff (open_qty line.ordered line.received_qty line.short_qty)
  where
    zero_iff : (q : ℤ) → (leb_ℤ q (pos 0) && leb_ℤ (pos 0) q ≡ true) ↔ (q ≡ pos 0)
    zero_iff q = (λ e. ground arith, λ e. rw e refl)

all_settled_iff : (lines : List PoLine) → (all_settled lines ≡ true) ↔ All Settled lines
unfolding all_settled
all_settled_iff [] = (λ e. tt, λ h. refl)
all_settled_iff (line ∷ lines) =
    let (to, from) = Settled-iff line in
    let (to_all, from_all) = all_settled_iff lines in
    elim (Bool-cases (is_settled line)) [
      | inl all_in ↦ rw all_in ((λ e. (to all_in, to_all e)), (λ (h, hs). from_all hs))
      | inr some_open ↦
          rw some_open ((λ e. absurd (cc e)), (λ (h, hs). absurd (cc (some_open, from h))))
    ]

-- An order becomes fully received exactly when it has lines and none of them is open any more.
pub received_iff :
    (lines : List PoLine)
    → (next_receipt_status lines ≡ received) ↔ ((lines ≢ []) × All Settled lines)
unfolding next_receipt_status
received_iff [] = ((λ e. absurd (cc e)), (λ (h, hs). absurd (h refl)))
received_iff (line ∷ lines) =
    let (to, from) = all_settled_iff (line ∷ lines) in
    elim (Bool-cases (all_settled (line ∷ lines))) [
      | inl all_in ↦ rw all_in ((λ e. ((λ eq. cc eq), to all_in)), (λ h. refl))
      | inr some_open ↦ rw some_open (
        (λ e. elim (Bool-cases (any_counted (line ∷ lines))) [
          | inl counted ↦ absurd (cc (rw counted at e))
          | inr fresh ↦ absurd (cc (rw fresh at e))
        ]),
        (λ (h, hs). absurd (cc (some_open, from hs))),
      )
    ]
