-- ===== src/Sales/Attempts.antt =====
-- Shipping one order: how each attempt ends.
use mathlib.Core.Path.{subst}
use cross_pilot.Prelude.Text.{String}
use cross_pilot.Prelude.Result.{Result, ok, err}
use cross_pilot.Prelude.{
  ◌==◌, Bool-cases, All, ℕ, suc, ◌≡◌, refl, sym, ap, ◌∙◌, inl, inr, Bool, true, false, Option, none,
  some, List, [], ◌∷◌,
}
use cross_pilot.Order.Status.{paid, shipped, value, parse_unified}
use cross_pilot.Ledger.Exec.{LedgerError, Session, pure, continue, ◌>>=◌, ◌>>◌}
use cross_pilot.Ledger.Orders.{is_some, is_status, ship_order}
use cross_pilot.Sales.Tables.{SalesOrder, find_order}
use cross_pilot.Sales.Rows.{find-update}
use cross_pilot.Sales.Frame.{SameOrders, SameOrders-refl, orders-Same}
use cross_pilot.Sales.Upsert.{set_order, stored_status}
use cross_pilot.Sales.Ingest.{append_log}
use cross_pilot.Sales.Invariant.{HasStatus, OrdersOk, OrdersOk-Same, same_self}
use cross_pilot.Sales.Ship.{
  ShipTarget, ShipMessage, failed_with, ShipLine, ShipTools, ship_reason, roll_back,
  keep_or_roll_back, try_atomic, get_for_order, save, attempt_of, target_of, load, mark_shipped,
  commit_success, raise_error, push_and_commit, record_failure, refused, finish_ship, attempt_ship,
  ship_unless, ship_target, ship_one,
}
use cross_pilot.Sales.RollBack.{Unchanged, Unchanged-refl, roll_back-Unchanged}
use cross_pilot.Sales.Shipping.{
  prepared, commit_runs, mark_shipped-KeepsKey, prepared-Ok, id-find, reason-paid,
}

-- A line tells how its attempt ended: a success took a paid order to shipped and returned its tracking
-- number; after a failure all is as it was, but for the record of the attempt.
abbrev pub Ended : ShipLine → Bool → Session → Session → Type 0
Ended line true before after =
    (stored_status (find_order line.order_id before.orders) ≡ some (value paid))
    × (stored_status (find_order line.order_id after.orders) ≡ some (value shipped))
Ended line false before after = Unchanged before after

-- What holds after an attempt that returned `line`; no attempt raises.
abbrev pub Attempted : ℕ → Session → Result LedgerError ShipLine × Session → Type 0
Attempted order_id before (ok line, after) =
    (line.order_id ≡ order_id) × OrdersOk after × Ended line line.succeeded before after
Attempted order_id before (err e, after) = ⊥

saved :
    (s t : Session) (target : ShipTarget) (attempt : ℕ) (e : LedgerError)
    → OrdersOk s
    → Unchanged s t
    → Attempted target.order_id s
        ((record_failure target attempt >> pure (refused target.order_id (failed_with e))) t)
unfolding record_failure try_atomic ◌>>=◌ save
saved s t target attempt e h u =
    let same : SameOrders s (save target.order_id false "" attempt t).1 = record {
      orders = u.same.orders;
      logs = u.same.logs;
      items = u.same.items;
      next_id = u.same.next_id;
    } in
    (
      refl,
      OrdersOk-Same s (save target.order_id false "" attempt t).1 h same,
      record { same = same; flows = u.flows; holds = u.holds; commits = u.commits; rows = u.rows },
    )

-- What holds when the first savepoint is released.
abbrev Committed : ℕ → Result LedgerError (Unit {0}) × Session → Type 0
Committed id (ok done, after) =
    OrdersOk after × (stored_status (find_order id after.orders) ≡ some (value shipped))
Committed id (err e, after) = Unit

Committed-both :
    (id : ℕ) (p : Result LedgerError (Unit {0}) × Session)
    → OrdersOk p.1
    → stored_status (find_order id p.1.orders) ≡ some (value shipped)
    → Committed id p
Committed-both id (ok done, after) h k = (h, k)
Committed-both id (err e, after) h k = tt

prepared-shipped :
    (tools : ShipTools) (order : SalesOrder) (carrier tracking_no : String) (attempt : ℕ)
    (s : Session)
    → find_order order.id s.orders ≡ some order
    → stored_status
        (find_order order.id (prepared tools order carrier tracking_no attempt s).orders)
      ≡ some (value shipped)
unfolding prepared set_order append_log save mark_shipped
prepared-shipped tools order carrier tracking_no attempt s found =
    rw
      (
        find-update order.id order.id (mark_shipped tools.now) s.orders
            (mark_shipped-KeepsKey tools.now),
        same_self order.id,
        found,
      )
      refl

body-Committed :
    (tools : ShipTools) (target : ShipTarget) (carrier tracking_no : String) (attempt : ℕ)
    (order : SalesOrder) (s : Session)
    → OrdersOk s
    → target.order_id ≡ order.id
    → find_order order.id s.orders ≡ some order
    → Committed order.id (push_and_commit tools target carrier tracking_no attempt s)
unfolding push_and_commit ◌>>=◌
body-Committed tools target carrier tracking_no attempt order s h is_id found =
    go (tools.push target carrier tracking_no)
  where
    s3 : Session
    s3 = prepared tools order carrier tracking_no attempt s

    go :
        (o : Option LedgerError)
        → Committed order.id (
            continue
              (raise_error o s).0
              (λ _. commit_success tools target carrier tracking_no attempt)
              (raise_error o s).1)
    go (some e) = tt
    go none =
        let same : SameOrders s3 (ship_order order.id s3).1 =
          (orders-Same {s0 = s3} order.id).2.at s3 (SameOrders-refl s3) in
        rw (commit_runs tools target carrier tracking_no attempt order s (rw is_id found)) (
          Committed-both order.id (ship_order order.id s3)
            (OrdersOk-Same s3 (ship_order order.id s3).1
              (prepared-Ok tools order carrier tracking_no attempt s h found) same)
            (rw (same.orders) (prepared-shipped tools order carrier tracking_no attempt s found)))

body_ends :
    (target : ShipTarget) (tracking_no : String) (attempt : ℕ) (s : Session)
    (p : Result LedgerError (Unit {0}) × Session)
    → OrdersOk s
    → stored_status (find_order target.order_id s.orders) ≡ some (value paid)
    → Committed target.order_id p
    → Attempted target.order_id s (
        continue
          (keep_or_roll_back s p).0
          (finish_ship target tracking_no attempt)
          (keep_or_roll_back s p).1)
unfolding finish_ship
body_ends target tracking_no attempt s (ok done, s') h was c = (refl, c.0, (was, c.1))
body_ends target tracking_no attempt s (err e, s') h was c =
    saved s (roll_back s s') target attempt e h (roll_back-Unchanged s s')

find-HasStatus :
    (id : ℕ) (rows : List SalesOrder) (row : SalesOrder)
    → All HasStatus rows
    → find_order id rows ≡ some row
    → HasStatus row
unfolding find_order
find-HasStatus id [] row h e = absurd (cc e)
find-HasStatus id (first ∷ rows) row h e = elim (Bool-cases (first.id == id)) [
  | inl hit ↦ let same : first ≡ row = cc (rw hit at e) in subst HasStatus same h.0
  | inr miss ↦ find-HasStatus id rows row h.1 (rw miss at e)
]

attempt_ship-Attempted :
    (tools : ShipTools) (target : ShipTarget) (carrier : String) (order : SalesOrder) (s : Session)
    → OrdersOk s
    → target.order_id ≡ order.id
    → target.unified_status ≡ order.unified_status
    → find_order order.id s.orders ≡ some order
    → ship_reason target ≡ none
    → Attempted target.order_id s (attempt_ship tools target carrier s)
unfolding attempt_ship try_atomic ◌>>=◌
attempt_ship-Attempted tools target carrier order s h is_id is_status found reason =
    body_ends target _ _ s
      (push_and_commit tools target carrier
        (tools.tracking_for target.order_id (suc target.attempt)) (suc target.attempt) s)
      h (rw (is_id, found) (ap some (sym is_status ∙ reason-paid target known reason)))
      (subst
        (λ i. Committed i (
          push_and_commit tools target carrier
            (tools.tracking_for target.order_id (suc target.attempt)) (suc target.attempt) s))
        (sym is_id) (body-Committed tools target carrier _ _ order s h is_id found))
  where
    known : is_some (parse_unified (some target.unified_status)) ≡ true
    known = rw is_status (find-HasStatus order.id s.orders order h.known found)

unless-Attempted :
    (tools : ShipTools) (target : ShipTarget) (carrier : String) (order : SalesOrder) (s : Session)
    (reason : Option ShipMessage)
    → OrdersOk s
    → target.order_id ≡ order.id
    → target.unified_status ≡ order.unified_status
    → find_order order.id s.orders ≡ some order
    → ship_reason target ≡ reason
    → Attempted target.order_id s (ship_unless tools target carrier reason s)
unless-Attempted tools target carrier order s (some reason) h is_id is_status found e =
    (refl, h, Unchanged-refl s)
unless-Attempted tools target carrier order s none h is_id is_status found e =
    attempt_ship-Attempted tools target carrier order s h is_id is_status found e

-- An attempt to ship an order never raises, whatever the platform answers and the ledger does: its line
-- names the order, the orders' tables are as they should be, and it ended as the line tells.
pub ship_one-Attempted :
    (tools : ShipTools) (carrier : String) (order_id : ℕ) (s : Session)
    → OrdersOk s
    → Attempted order_id s (ship_one tools carrier order_id s)
unfolding ship_one load ship_target ◌>>=◌
ship_one-Attempted tools carrier order_id s h = go (find_order order_id s.orders) refl
  where
    go :
        (o : Option SalesOrder)
        → find_order order_id s.orders ≡ o
        → Attempted order_id s (
            ship_target tools order_id carrier (target_of o (get_for_order order_id s.shipments)) s)
    go none e = (refl, h, Unchanged-refl s)
    go (some order) e =
        let target : ShipTarget = record {
          order_id = order.id;
          unified_status = order.unified_status;
          attempt = attempt_of (get_for_order order_id s.shipments);
          review_status = order.review_status;
        } in
        let same = id-find order_id s.orders order e in
        subst (λ i. Attempted i s (ship_target tools order_id carrier (some target) s)) same
          (unless-Attempted tools target carrier order s (ship_reason target) h refl refl
            (subst (λ i. find_order i s.orders ≡ some order) (sym same) e) refl)
