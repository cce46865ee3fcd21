-- ===== src/Desk/Tests.antt =====
-- The order desk on concrete orders.
use cross_pilot.Prelude.Result.{ok}
use cross_pilot.Desk.{
  next_review_status, review_blocks_ship, ship_overdue, ship_deadline, ship_window, find_return,
  decide_return, is_ticket, next_ticket_status,
}
use cross_pilot.Desk.Laws.{ticket_moves}
use cross_pilot.Prelude.{◌≡◌, refl, ◌≢◌, true, none, some}
use cross_pilot.Prelude.Int.{pos, ◌+ℤ◌, ◌-ℤ◌, ◌*ℤ◌}
use cross_pilot.Prelude.Text.{String}

approved_ships : review_blocks_ship (next_review_status (some "APPROVED") true) ≡ none
unfolding review_blocks_ship next_review_status
approved_ships = refl

overdue_now :
    ship_window "PAID" (some (pos 0)) (pos 172_800_000_001) (pos 48) (pos 4) ≡ some ship_overdue
unfolding ship_window ship_deadline ◌+ℤ◌ ◌-ℤ◌ ◌*ℤ◌
overdue_now = refl

refunds : decide_return "APPROVED" "refund" ≡ some "REFUNDED"
unfolding decide_return find_return
refunds = refl

follows_up : next_ticket_status "ASSIGNED" "NOTE" ≡ ok "IN_PROGRESS"
unfolding next_ticket_status
follows_up = refl

ticket_moves_example :
    (is_ticket "IN_PROGRESS" ≡ true)
    × ◌≢◌ {A = String} "IN_PROGRESS" "OPEN"
    × ◌≢◌ {A = String} "ASSIGNED" "CLOSED"
ticket_moves_example = ticket_moves "ASSIGNED" "NOTE" "IN_PROGRESS" follows_up
