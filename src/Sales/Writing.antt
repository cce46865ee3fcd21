-- ===== src/Sales/Writing.antt =====
-- What `upsert` leaves in the table of orders.
use mathlib.Core.Path.{subst}
use cross_pilot.Prelude.{
  ◌==◌, Bool-cases, All, All-append, All-map, ℕ, ◌≤◌, ◌<◌, ◌≡◌, refl, sym, ◌∙◌, inl, inr, false,
  Option, none, some, List, [], ◌∷◌, ◌++◌, arith,
}
use cross_pilot.Ledger.Exec.{Session}
use cross_pilot.Order.Status.{UnifiedStatus, value, StatusDecision}
use cross_pilot.Order.Status.Mapping.{parse-value}
use cross_pilot.Sales.Tables.{OrderKey, SalesOrder, get_by_key, find_order, update_order, logs_for}
use cross_pilot.Ledger.Tables.{OrderItem}
use cross_pilot.Sales.Upsert.{
  UnifiedOrder, stamp, copy_report, apply_status, blank_order, new_order, stored_status,
}
use cross_pilot.Sales.Rows.{
  KeepsKey, apply_status-KeepsKey, after_change, find-update, find-append, IsTable-update,
  IsTable-append,
}
use cross_pilot.Sales.Invariant.{LeadsTo, HasStatus, OrdersOk, Written, same_self}

-- What `_apply_status` leaves and what it sets.
pub applied-status :
    (order : UnifiedOrder) (d : StatusDecision) (row : SalesOrder)
    → ((apply_status order d row).unified_status ≡ value d.to_status)
      × ((apply_status order d row).platform_updated_at ≡ some order.updated_at)
unfolding apply_status copy_report stamp
applied-status order d row = (ground arith, ground arith)

find-fresh :
    (n : ℕ) (rows : List SalesOrder) → All (λ row. row.id < n) rows → find_order n rows ≡ none
unfolding find_order
find-fresh n [] h = refl
find-fresh n (row ∷ rows) h = ground (arith, find-fresh n rows h.1)

pub used-later :
    (m n : ℕ) (rows : List SalesOrder)
    → m ≤ n
    → All (λ row. row.id < m) rows
    → All (λ row. row.id < n) rows
used-later m n rows le h =
    All-map (λ row. row.id < m) (λ row. row.id < n) rows (λ row k. omega (arith, k, le)) h

pub used-update :
    (n id : ℕ) (f : SalesOrder → SalesOrder) (rows : List SalesOrder)
    → KeepsKey f
    → All (λ row. row.id < n) rows
    → All (λ row. row.id < n) (update_order id f rows)
unfolding update_order
used-update n id f [] k h = tt
used-update n id f (row ∷ rows) k h = elim (Bool-cases (row.id == id)) [
  | inl hit ↦ rw hit (rw (k.on_id row) h.0, h.1)
  | inr miss ↦ rw miss (h.0, used-update n id f rows k h.1)
]

pub known-update :
    (id : ℕ) (f : SalesOrder → SalesOrder) (rows : List SalesOrder)
    → ((row : SalesOrder) → HasStatus row → HasStatus (f row))
    → All HasStatus rows
    → All HasStatus (update_order id f rows)
unfolding update_order
known-update id f [] k h = tt
known-update id f (row ∷ rows) k h = elim (Bool-cases (row.id == id)) [
  | inl hit ↦ rw hit (k row h.0, h.1)
  | inr miss ↦ rw miss (h.0, known-update id f rows k h.1)
]

after_miss : (f : SalesOrder → SalesOrder) (o : Option SalesOrder) → after_change false f o ≡ o
after_miss f none = refl
after_miss f (some row) = refl

-- A stored row is changed to have the status `to`.
pub update-Written :
    (f : SalesOrder → SalesOrder) (to : UnifiedStatus) (row : SalesOrder) (s : Session)
    (lines : List OrderItem) (n : ℕ)
    → KeepsKey f
    → ((r : SalesOrder) → (f r).unified_status ≡ value to)
    → OrdersOk s
    → s.next_id ≤ n
    → find_order row.id s.orders ≡ some row
    → Written
        (f row)
        (some row.unified_status)
        to
        (record s { orders = update_order row.id f s.orders; items = lines; next_id = n })
update-Written f to row s lines n k st h le e = record {
  found =
      subst (λ i. find_order i (update_order row.id f s.orders) ≡ some (f row)) (sym (k.on_id row))
        (find-update row.id row.id f s.orders k ∙ rw (same_self row.id, e) refl);
  status = st row;
  lag = record {
    keys = IsTable-update row.id f s.orders k h.keys;
    used = used-update n row.id f s.orders k (used-later s.next_id n s.orders le h.used);
    known = known-update row.id f s.orders (λ r _. rw (st r, parse-value to) refl) h.known;
    others_logged = λ i miss.
        rw (find-update i row.id f s.orders k, other i miss, after_miss f (find_order i s.orders))
          (h.logged i);
    this_logged = rw (k.on_id row) (
        subst (λ o. LeadsTo (stored_status o) (logs_for row.id s.status_logs)) e (h.logged row.id));
  };
}
  where
    other : (i : ℕ) → ((f row).id == i) ≡ false → (row.id == i) ≡ false
    other i miss = rw (k.on_id row) at miss

pub new_order_made :
    (id : ℕ) (key : OrderKey) (order : UnifiedOrder) (d : StatusDecision)
    → ((new_order id key order d).id ≡ id)
      × ((new_order id key order d).key ≡ key)
      × ((new_order id key order d).unified_status ≡ value d.to_status)
      × ((new_order id key order d).platform_updated_at ≡ some order.updated_at)
unfolding new_order
new_order_made id key order d =
    let row = blank_order id key order d in
    let k = apply_status-KeepsKey order d in
    let (status, stamp) = applied-status order d row in
    (
      k.on_id row ∙ unfold blank_order in refl,
      k.on_key row ∙ unfold blank_order in refl,
      status,
      stamp,
    )

-- A row that is written for the first time.
pub insert-Written :
    (key : OrderKey) (new : SalesOrder) (d : StatusDecision) (s : Session) (lines : List OrderItem)
    (n : ℕ)
    → OrdersOk s
    → s.next_id < n
    → get_by_key key s.orders ≡ none
    → new.id ≡ s.next_id
    → new.key ≡ key
    → new.unified_status ≡ value d.to_status
    → Written new none d.to_status
        (record s { orders = s.orders ++ new ∷ []; items = lines; next_id = n })
insert-Written key new d s lines n h lt e is_id is_key is_status = record {
  found = rw (find-append new.id s.orders new fresh, same_self new.id) refl;
  status = is_status;
  lag = record {
    keys = IsTable-append s.orders new h.keys fresh (rw is_key e);
    used =
        All-append (λ row. row.id < n) s.orders (new ∷ [])
          (used-later s.next_id n s.orders (omega (arith, lt)) h.used) (rw is_id lt, tt);
    known =
        All-append HasStatus s.orders (new ∷ []) h.known
          (rw (is_status, parse-value d.to_status) refl, tt);
    others_logged = λ i miss. rw (find-append i s.orders new fresh, miss) (h.logged i);
    this_logged = rw is_id (
        subst (λ o. LeadsTo (stored_status o) (logs_for s.next_id s.status_logs))
          (find-fresh s.next_id s.orders h.used) (h.logged s.next_id));
  };
}
  where
    fresh : find_order new.id s.orders ≡ none
    fresh = rw is_id (find-fresh s.next_id s.orders h.used)
