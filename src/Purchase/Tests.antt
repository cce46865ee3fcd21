-- ===== src/Purchase/Tests.antt =====
-- Purchase orders on concrete lines.
use cross_pilot.Prelude.Int.{pos, ◌+ℤ◌, ◌-ℤ◌, ◌≤ℤ◌}
use cross_pilot.Prelude.{◌≡◌, refl, ◌↔◌, true, false, arith}
use cross_pilot.Purchase.{
  approved, cancelled, cancel, receive, open_qty, assert_transition, ReceiptPlan, plan_receive,
}
use cross_pilot.Purchase.Machine.{Leads, transition_iff}
use cross_pilot.Purchase.Quantities.{plan_receive-open, plan_receive-Within}
use cross_pilot.Prelude.Result.{ok}

transition_iff_example :
    (assert_transition approved cancel (pos 0) ≡ ok cancelled)
    ↔ Leads (pos 0) approved cancel cancelled
transition_iff_example = transition_iff approved cancel (pos 0) cancelled

abbrev received_rest : ReceiptPlan
received_rest = record {
  receive_qty = pos 6;
  transit_release = pos 6;
  new_received = pos 9;
  new_short = pos 1;
}

abbrev received_too_much : ReceiptPlan
received_too_much = record {
  receive_qty = pos 8;
  transit_release = pos 6;
  new_received = pos 11;
  new_short = pos 1;
}

receives_too_much :
    plan_receive (pos 10) (pos 3) (pos 1) (pos 8) receive true ≡ ok received_too_much
unfolding plan_receive open_qty ◌+ℤ◌ ◌-ℤ◌
receives_too_much = refl

receives_rest : plan_receive (pos 10) (pos 3) (pos 1) (pos 6) receive false ≡ ok received_rest
unfolding plan_receive open_qty ◌+ℤ◌ ◌-ℤ◌
receives_rest = refl

plan_receive-open_example :
    open_qty (pos 10) (pos 11) (pos 1) ≡ open_qty (pos 10) (pos 3) (pos 1) -ℤ pos 6
plan_receive-open_example =
    plan_receive-open (pos 10) (pos 3) (pos 1) (pos 8) receive true received_too_much
      receives_too_much

plan_receive-Within_example : (pos 9 +ℤ pos 1 ≤ℤ pos 10) × (pos 3 ≤ℤ pos 9) × (pos 1 ≤ℤ pos 1)
unfolding ◌+ℤ◌
plan_receive-Within_example =
    plan_receive-Within (pos 10) (pos 3) (pos 1) (pos 6) receive received_rest (ground arith)
      receives_rest
