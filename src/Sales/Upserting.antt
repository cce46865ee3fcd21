-- ===== src/Sales/Upserting.antt =====
-- What `upsert` does, on each of its ways out.
use cross_pilot.Sales.Lines.{NoSkus, replaced-NoSkus}
use cross_pilot.Prelude.Text.{String}
use cross_pilot.Prelude.Result.{ok}
use cross_pilot.Prelude.{
  length, All, suc, ◌+◌, ◌≡◌, refl, ◌∙◌, inl, inr, false, Option, none, some, List, [], ◌∷◌, ◌++◌,
  arith,
}
use cross_pilot.Ledger.Exec.{Session, ◌>>=◌}
use cross_pilot.Order.Status.{StatusDecision}
use cross_pilot.Sync.Idempotency.{WriteAction, insert_it, update_it, skip_it, decide_write}
use cross_pilot.Sales.Tables.{OrderKey, SalesOrder, get_by_key, update_order}
use cross_pilot.Sales.Upsert.{
  UnifiedOrder, stamp, apply_status, new_order, without_items, new_items, replace_items,
  insert_order, set_order, stored_status, stored_stamp, write_order, is_skip, upsert,
}
use cross_pilot.Sales.Rows.{
  same_key_refl, apply_status-KeepsKey, get-append, get-cons, find-get, get-update,
}
use cross_pilot.Sales.Invariant.{HasStatus, OrdersOk, IsKnownAt, Written}
use cross_pilot.Sales.Writing.{applied-status, update-Written, new_order_made, insert-Written}

-- What `upsert` did when it wrote: it returned the decision, and the row has the report's stamp.
pub record Upserted (key : OrderKey) (order : UnifiedOrder)
    (resolve : Option String → StatusDecision) (s : Session) : Type 0 where
  pub action : WriteAction
  pub at : Option String
  pub after : Session
  pub run : upsert key order resolve s ≡ (ok (action, some (resolve at)), after)
  pub was : at ≡ stored_status (get_by_key key s.orders)
  pub known_at : IsKnownAt at
  pub row : SalesOrder
  pub written : Written row at (resolve at).to_status after
  pub found : get_by_key key after.orders ≡ some row
  pub stamp : row.platform_updated_at ≡ some order.updated_at
  pub blank : NoSkus row.id after.items
  pub rows : after.inventories ≡ s.inventories
  pub flows : after.flows ≡ s.flows
  pub holds : after.holds ≡ s.holds

known-get :
    (key : OrderKey) (rows : List SalesOrder) (row : SalesOrder)
    → All HasStatus rows
    → get_by_key key rows ≡ some row
    → HasStatus row
unfolding get_by_key
known-get key [] row h e = absurd (cc e)
known-get key (first ∷ rows) row h e = elim (get-cons key first rows row e) [
  | inl here ↦ rw (← here) h.0
  | inr there ↦ known-get key rows row h.1 there
]

pub upsert_skips :
    (key : OrderKey) (order : UnifiedOrder) (resolve : Option String → StatusDecision) (s : Session)
    → decide_write (stored_stamp (get_by_key key s.orders)) order.updated_at ≡ skip_it
    → upsert key order resolve s ≡ (ok (skip_it, none), s)
unfolding upsert ◌>>=◌
upsert_skips key order resolve s h = rw h refl

upsert_writes :
    (key : OrderKey) (order : UnifiedOrder) (resolve : Option String → StatusDecision) (s : Session)
    (o : Option SalesOrder)
    → is_skip (decide_write (stored_stamp (get_by_key key s.orders)) order.updated_at) ≡ false
    → get_by_key key s.orders ≡ o
    → upsert key order resolve s ≡ write_order key order (resolve (stored_status o)) o s
unfolding upsert ◌>>=◌
upsert_writes key order resolve s o h e = rw (h, e) refl

pub upsert-Upserted :
    (key : OrderKey) (order : UnifiedOrder) (resolve : Option String → StatusDecision) (s : Session)
    (o : Option SalesOrder)
    → OrdersOk s
    → is_skip (decide_write (stored_stamp (get_by_key key s.orders)) order.updated_at) ≡ false
    → get_by_key key s.orders ≡ o
    → Upserted key order resolve s
unfolding write_order ◌>>=◌ insert_order replace_items set_order
upsert-Upserted key order resolve s none ok_s h e =
    let d = resolve none in
    let (is_id, is_key, is_status, stamp) = new_order_made s.next_id key order d in
    let new = new_order s.next_id key order d in
    record {
      action = insert_it;
      at = none;
      after = record s {
        orders = s.orders ++ new ∷ [];
        items =
            without_items s.next_id s.items ++ new_items (suc s.next_id) s.next_id order.quantities;
        next_id = suc s.next_id + length order.quantities;
      };
      run = upsert_writes key order resolve s none h e;
      was = rw e refl;
      known_at = tt;
      written = insert-Written key new d s _ _ ok_s (omega arith) e is_id is_key is_status;
      row = new;
      found = get-append key s.orders new e ∙ rw (is_key, same_key_refl key) refl;
      stamp = stamp;
      blank = rw is_id (replaced-NoSkus s.next_id (suc s.next_id) s.items order.quantities);
      rows = refl;
      flows = refl;
      holds = refl;
    }
upsert-Upserted key order resolve s (some row) ok_s h e =
    let d = resolve (some row.unified_status) in
    record {
      action = update_it;
      at = some row.unified_status;
      after = record s {
        orders = update_order row.id (apply_status order d) s.orders;
        items = without_items row.id s.items ++ new_items s.next_id row.id order.quantities;
        next_id = s.next_id + length order.quantities;
      };
      run = upsert_writes key order resolve s (some row) h e;
      was = rw e refl;
      known_at = known-get key s.orders row ok_s.known e;
      written =
          update-Written (apply_status order d) d.to_status row s _ _
            (apply_status-KeepsKey order d) (λ r. (applied-status order d r).0) ok_s (omega arith)
            (find-get key s.orders row ok_s.keys e);
      row = apply_status order d row;
      found =
          get-update key (apply_status order d) s.orders row (apply_status-KeepsKey order d)
            ok_s.keys e;
      stamp = (applied-status order d row).1;
      blank =
          rw ((apply_status-KeepsKey order d).on_id row)
            (replaced-NoSkus row.id s.next_id s.items order.quantities);
      rows = refl;
      flows = refl;
      holds = refl;
    }
