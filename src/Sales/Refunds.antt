-- ===== src/Sales/Refunds.antt =====
-- What reviews and returns keep of the orders' tables.
use cross_pilot.Prelude.Int.{ℤ}
use cross_pilot.Sync.Idempotency.{TextMethods}
use cross_pilot.Sales.Shipping.{id-find}
use mathlib.Core.Path.{subst}
use cross_pilot.Ledger.Change.{Note, touch, commit_change}
use cross_pilot.Sales.Frame.{touch-Same, flush_enqueue-Same, commit_change-Same, set_return-Same}
use cross_pilot.Ledger.Returns.Keeping.{receive_return-Keeps}
use cross_pilot.Ledger.Returns.{set_return, receive_return}
use cross_pilot.Ledger.Orders.{flush_enqueue}
use cross_pilot.Ledger.Tables.{Inventory, Delta}
use cross_pilot.Ledger.Direct.{insert_row, found_or_new, ensure}
use cross_pilot.Prelude.Text.{String, str_eq}
use cross_pilot.Prelude.{
  if◌then◌else◌, ℕ, suc, ◌≡◌, refl, sym, Bool, true, false, not, Option, none, some, arith,
}
use cross_pilot.Order.Status.{
  UnifiedStatus, refunding, refunded, manual, value, parse_unified, decide_status,
}
use cross_pilot.Ledger.Exec.{
  order_not_found, order_state, Session, pure, or_raise, raise_when, continue, ◌>>=◌, ◌>>◌,
}
use cross_pilot.Ledger.Exec.Keeps.{Keeps, Keeps-continue, keeps_rules}
use cross_pilot.Sales.Tables.{SalesOrder, ReturnOrder, find_order}
use cross_pilot.Sales.Upsert.{set_order}
use cross_pilot.Sales.Ingest.{append_log}
use cross_pilot.Sales.Invariant.{OrdersOk, appended-Ok}
use cross_pilot.Sales.Writing.{used-later, update-Written}
use cross_pilot.Sales.Keeping.{set_order-Ok, untouched-Ok}
use cross_pilot.Sales.Returns.{
  order_or_raise, set_review, decide_review, insert_return, create_return, move_to, is_apply,
  move_order, deferred, refund_return, act_on_return, set_return_status, transition_return,
}

moved-Ok :
    (order : SalesOrder) (target : UnifiedStatus) (remark : String) (s : Session)
    → OrdersOk s
    → find_order order.id s.orders ≡ some order
    → OrdersOk
        (append_log order.id
          (some order.unified_status)
          (value target)
          manual
          (some remark)
          (set_order order.id (move_to target) s).1).1
unfolding append_log set_order
moved-Ok order target remark s h found =
    appended-Ok (move_to target order) (some order.unified_status) target _ _
      (update-Written (move_to target) target order s s.items s.next_id
        (record { on_id = λ row. refl; on_key = λ row. refl }) (λ r. refl) h (omega arith) found)
      refl refl refl

move_order-Ok :
    (order : SalesOrder) (target : UnifiedStatus) (remark : String) (s : Session)
    → OrdersOk s
    → find_order order.id s.orders ≡ some order
    → OrdersOk (move_order order target remark s).1
unfolding move_order ◌>>=◌
move_order-Ok order target remark s h found = go (
    not (
      is_apply
        (decide_status (parse_unified (some order.unified_status)) (some target) manual).kind))
  where
    go :
        (b : Bool)
        → OrdersOk
            (continue
              (raise_when b order_state s).0
              (λ _.
                set_order order.id (move_to target)
                >> append_log order.id
                    (some order.unified_status)
                    (value target)
                    manual
                    (some remark))
              (raise_when b order_state s).1).1
    go true = h
    go false = unfold set_order in moved-Ok order target remark s h found

pub decide_review-Ok :
    (order_id : ℕ) (decision : String) → Keeps OrdersOk (decide_review order_id decision)
unfolding decide_review order_or_raise
decide_review-Ok order_id decision = search (keeps_rules, reviewed) depth 10
  where
    reviewed : (id : ℕ) (status : String) → Keeps OrdersOk (set_order id (set_review status))
    reviewed id status = set_order-Ok id (set_review status) (record {
      key = record { on_id = λ row. refl; on_key = λ row. refl };
      status = λ row. refl;
    })

ensure-Ok : (sku_id warehouse_id : ℕ) → Keeps OrdersOk (ensure sku_id warehouse_id)
unfolding ensure found_or_new
ensure-Ok sku_id warehouse_id = search (keeps_rules, found_or_new-Ok) depth 12
  where
    insert_row-Ok : (row : Inventory) → Keeps OrdersOk (insert_row row)
    insert_row-Ok row =
        unfold insert_row in
        record {
          at = λ s h. record {
            keys = h.keys;
            used = used-later s.next_id (suc s.next_id) s.orders (omega arith) h.used;
            known = h.known;
            logged = h.logged;
          };
        }

    found_or_new-Ok :
        (sku_id warehouse_id : ℕ) (o : Option Inventory)
        → Keeps OrdersOk (found_or_new sku_id warehouse_id o)
    found_or_new-Ok sku_id warehouse_id (some row) = search keeps_rules
    found_or_new-Ok sku_id warehouse_id none =
        unfold found_or_new in search (keeps_rules, insert_row-Ok)

commit_change-Ok :
    (row : Inventory) (note : Note) (d : Delta) → Keeps OrdersOk (commit_change row note d)
commit_change-Ok row note d =
    untouched-Ok (commit_change row note d) (λ s0. commit_change-Same {s0 = s0} row note d)

set_return-Ok : (id : ℕ) (f : ReturnOrder → ReturnOrder) → Keeps OrdersOk (set_return id f)
set_return-Ok id f = untouched-Ok (set_return id f) (λ s0. set_return-Same {s0 = s0} id f)

receive_return-Ok : (row : ReturnOrder) → Keeps OrdersOk (receive_return row)
receive_return-Ok =
    receive_return-Keeps ensure-Ok commit_change-Ok
      (λ sku_id. untouched-Ok (touch sku_id) (λ s0. touch-Same {s0 = s0} sku_id)) set_return-Ok
      (untouched-Ok flush_enqueue (λ s0. flush_enqueue-Same {s0 = s0}))

refund_return-Ok :
    (row : ReturnOrder) (order : SalesOrder) (s : Session)
    → OrdersOk s
    → find_order order.id s.orders ≡ some order
    → OrdersOk (refund_return row order s).1
unfolding refund_return ◌>>=◌
refund_return-Ok row order s h found =
    let moved = move_order-Ok order refunded "退款完成" s h found in
    Keeps-continue (move_order order refunded "退款完成" s).0 _ (move_order order refunded "退款完成" s).1
      (λ _. rest) moved
  where
    rest : Keeps OrdersOk (
        set_return row.id deferred
        >> (if row.restock_flag then receive_return (deferred row) else pure tt))
    rest = search (keeps_rules, set_return-Ok, receive_return-Ok)

act_on_return-Ok :
    (action : String) (row : ReturnOrder) (order : SalesOrder) (s : Session)
    → OrdersOk s
    → find_order order.id s.orders ≡ some order
    → OrdersOk (act_on_return action row order s).1
unfolding act_on_return
act_on_return-Ok action row order s h found = go (str_eq action "approve") (str_eq action "refund")
  where
    go :
        (a b : Bool)
        → OrdersOk
            ((if a
                then move_order order refunding "退货审核通过"
                else if b
                then refund_return row order
                else pure tt)
              s).1
    go true b = move_order-Ok order refunding "退货审核通过" s h found
    go false true = refund_return-Ok row order s h found
    go false false = h

decided-Ok :
    (action next : String) (row : ReturnOrder)
    → Keeps OrdersOk (
        order_or_raise row.order_id >>= λ order.
        act_on_return action row order >> set_return row.id (set_return_status next))
unfolding order_or_raise ◌>>=◌
decided-Ok action next row = record { at = λ s h. go s h (find_order row.order_id s.orders) refl }
  where
    acted :
        (s : Session) (order : SalesOrder)
        → OrdersOk s
        → find_order order.id s.orders ≡ some order
        → OrdersOk
            ((act_on_return action row order >> set_return row.id (set_return_status next)) s).1
    acted s order h found =
        let m = act_on_return action row order s in
        Keeps-continue m.0 _ m.1 (λ _. set_return-Ok row.id (set_return_status next))
          (act_on_return-Ok action row order s h found)

    go :
        (s : Session) (h : OrdersOk s) (o : Option SalesOrder)
        → find_order row.order_id s.orders ≡ o
        → OrdersOk
            ((or_raise o order_not_found >>= λ order.
                act_on_return action row order >> set_return row.id (set_return_status next))
              s).1
    go s h none e = h
    go s h (some order) e = acted s order h (
        subst (λ i. find_order i s.orders ≡ some order)
          (sym (id-find row.order_id s.orders order e)) e)

-- A decision on a return, with whatever end, leaves the orders' tables as they should be: each move of
-- the order stands in its log.
pub transition_return-Ok :
    (return_id : ℕ) (action : String) → Keeps OrdersOk (transition_return return_id action)
unfolding transition_return
transition_return-Ok return_id action = search (keeps_rules, decided-Ok)

pub create_return-Ok :
    (py : TextMethods) (order_id : ℕ) (reason : String) (refund_amount : ℤ) (flag sellable : Bool)
    → Keeps OrdersOk (create_return py order_id reason refund_amount flag sellable)
unfolding create_return order_or_raise
create_return-Ok py order_id reason refund_amount flag sellable =
    search (keeps_rules, inserted) depth 12
  where
    inserted : (row : ReturnOrder) → Keeps OrdersOk (insert_return row)
    inserted row =
        unfold insert_return in
        record {
          at = λ s h. record {
            keys = h.keys;
            used = used-later s.next_id (suc s.next_id) s.orders (omega arith) h.used;
            known = h.known;
            logged = h.logged;
          };
        }
