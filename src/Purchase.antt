-- ===== src/Purchase.antt =====
-- Purchase orders: the state machine and the quantities of backend/app/engines/purchase.py. Its
-- allocation of first-mile costs, which computes with `Decimal`, is left out.
pub mod Machine
pub mod Quantities
pub mod Tables
pub mod Service
mod Tests
use cross_pilot.Prelude.Int.{ℤ, pos, ◌+ℤ◌, ◌-ℤ◌, ltb_ℤ, leb_ℤ, max_ℤ, min_ℤ}
use cross_pilot.Prelude.Result.{Result, ok, err, ◌>>=◌, ◌>>◌, raise_if}
use cross_pilot.Prelude.{
  ◌==◌, if◌then◌else◌, ℕ, Bool, true, false, not, ◌&&◌, ◌||◌, Option, none, some, List, [], ◌∷◌,
}

-- `PO_STATUSES`
pub data PoStatus : Type 0 where
  draft pending approved partial received closed cancelled : PoStatus

-- The actions that `assert_transition` knows; the source spells them as strings, and refuses every
-- other string like an action that the status does not allow.
pub data Action : Type 0 where
  submit reject approve cancel close : Action

-- The codes of `PurchaseRuleError`.
pub data PurchaseRuleError : Type 0 where
  state_error receipt_error : PurchaseRuleError

-- `RECEIPT_DISPOSITIONS`, and every other string
pub data Disposition : Type 0 where
  receive short_close unknown : Disposition

unfoldable pub open_qty : ℤ → ℤ → ℤ → ℤ
open_qty ordered received_qty short_qty = max_ℤ (pos 0) (ordered -ℤ received_qty -ℤ short_qty)

abbrev pub cancel_approved : Bool → Result PurchaseRuleError PoStatus
cancel_approved true = err state_error
cancel_approved false = ok cancelled

unfoldable pub assert_transition : PoStatus → Action → ℤ → Result PurchaseRuleError PoStatus
assert_transition draft submit got = ok pending
assert_transition pending reject got = ok draft
assert_transition pending approve got = ok approved
assert_transition draft cancel got = ok cancelled
assert_transition pending cancel got = ok cancelled
assert_transition approved cancel got = cancel_approved (ltb_ℤ (pos 0) got)
assert_transition partial close got = ok closed
assert_transition received close got = ok closed
assert_transition status action got = err state_error

-- `OPEN_FOR_EDIT` and `OPEN_FOR_RECEIPT`
abbrev pub open_for_edit : PoStatus → Bool
open_for_edit draft = true
open_for_edit pending = true
open_for_edit approved = true
open_for_edit partial = true
open_for_edit status = false

abbrev pub open_for_receipt : PoStatus → Bool
open_for_receipt approved = true
open_for_receipt partial = true
open_for_receipt status = false

unfoldable pub assert_can_edit : PoStatus → Result PurchaseRuleError (Unit {0})
assert_can_edit status = raise_if (not (open_for_edit status)) state_error

unfoldable pub assert_can_receive : PoStatus → Result PurchaseRuleError (Unit {0})
assert_can_receive status = raise_if (not (open_for_receipt status)) state_error

-- `status in {"DRAFT", "PENDING"}`
abbrev pub is_unapproved : PoStatus → Bool
is_unapproved draft = true
is_unapproved pending = true
is_unapproved status = false

unfoldable pub transit_delta_for_qty_change : PoStatus → ℤ → ℤ → ℤ → ℤ → Result PurchaseRuleError ℤ
transit_delta_for_qty_change status ordered got short_qty new_ordered = do
  raise_if (leb_ℤ new_ordered (pos 0)) receipt_error
  raise_if (ltb_ℤ new_ordered (got +ℤ short_qty)) receipt_error
  assert_can_edit status
  ok (
      if is_unapproved status
      then pos 0
      else open_qty new_ordered got short_qty -ℤ open_qty ordered got short_qty)

pub record ReceiptPlan : Type 0 where
  pub receive_qty : ℤ
  pub transit_release : ℤ
  pub new_received : ℤ
  pub new_short : ℤ

unfoldable pub plan_receive :
    ℤ → ℤ → ℤ → ℤ → Disposition → Bool → Result PurchaseRuleError ReceiptPlan
plan_receive ordered got short_qty quantity unknown allow_over = err receipt_error
plan_receive ordered got short_qty quantity short_close allow_over =
    let remaining = open_qty ordered got short_qty in
    if leb_ℤ remaining (pos 0)
    then err receipt_error
    else ok (record {
      receive_qty = pos 0;
      transit_release = remaining;
      new_received = got;
      new_short = short_qty +ℤ remaining;
    })
plan_receive ordered got short_qty quantity receive allow_over =
    let remaining = open_qty ordered got short_qty in
    if leb_ℤ quantity (pos 0)
    then err receipt_error
    else if ltb_ℤ remaining quantity && not allow_over
    then err receipt_error
    else ok (record {
      receive_qty = quantity;
      transit_release = min_ℤ quantity remaining;
      new_received = got +ℤ quantity;
      new_short = short_qty;
    })

-- A line as `next_receipt_status` reads it.
pub record PoLine : Type 0 where
  pub ordered : ℤ
  pub received_qty : ℤ
  pub short_qty : ℤ

abbrev pub is_settled : PoLine → Bool
is_settled line =
    let remaining = open_qty line.ordered line.received_qty line.short_qty in
    leb_ℤ remaining (pos 0) && leb_ℤ (pos 0) remaining

-- Python takes a number for true when it is not 0.
abbrev pub truthy : ℤ → Bool
truthy n = not (leb_ℤ n (pos 0) && leb_ℤ (pos 0) n)

unfoldable pub all_settled : List PoLine → Bool
all_settled [] = true
all_settled (line ∷ lines) = is_settled line && all_settled lines

unfoldable pub any_counted : List PoLine → Bool
any_counted [] = false
any_counted (line ∷ lines) =
    (truthy line.received_qty || truthy line.short_qty) || any_counted lines

unfoldable pub next_receipt_status : List PoLine → PoStatus
unfolding all_settled any_counted
next_receipt_status [] = approved
next_receipt_status (line ∷ lines) =
    if all_settled (line ∷ lines)
    then received
    else if any_counted (line ∷ lines)
    then partial
    else approved

-- A warehouse's type, `unlisted` for every other string
pub data WarehouseType : Type 0 where
  local overseas fba unlisted : WarehouseType

pub data TransitRegion : Type 0 where
  domestic overseas_region : TransitRegion

unfoldable pub transit_region : WarehouseType → Result PurchaseRuleError TransitRegion
transit_region local = ok domestic
transit_region overseas = ok overseas_region
transit_region fba = ok overseas_region
transit_region unlisted = err state_error

abbrev pub is_abroad : Option WarehouseType → Bool
is_abroad (some overseas) = true
is_abroad (some fba) = true
is_abroad o = false

unfoldable pub should_move_stock : Option ℕ → Option ℕ → Option WarehouseType → Bool
should_move_stock none to_id type = false
should_move_stock (some from) none type = false
should_move_stock (some from) (some to) type = if from == to then false else not (is_abroad type)
