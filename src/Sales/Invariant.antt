-- ===== src/Sales/Invariant.antt =====
-- What holds of the orders' tables between two calls, and that writing a row with its log keeps it.
use cross_pilot.Prelude.Text.{String}
use cross_pilot.Prelude.{
  ◌==◌, if◌then◌else◌, Bool-cases, Option-cases, All, ℕ, ◌<◌, ◌≡◌, refl, sym, ap, inl, inr, true,
  false, Option, none, some, List, [], ◌∷◌, arith,
}
use mathlib.Core.Path.{subst}
use cross_pilot.Ledger.Exec.{Session}
use cross_pilot.Ledger.Orders.{is_some}
use cross_pilot.Order.Status.{
  UnifiedStatus, StatusChangeSource, DecisionKind, apply, unchanged, reject, value, same,
  parse_unified, allowed, StatusDecision, decide_known, decide_status,
}
use cross_pilot.Sales.Tables.{SalesOrder, OrderStatusLog, find_order, logs_for}
use cross_pilot.Sales.Upsert.{stored_status}
use cross_pilot.Sales.Rows.{IsTable}
use cross_pilot.Sales.Ingest.{remark_of, append_log, value_of, log_decision}
use cross_pilot.Order.Status.Mapping.{parsed_text}
use cross_pilot.Sales.Frame.{SameOrders}

-- The entries of one order, the newest first, lead from no status to the given one without a gap.
abbrev pub LeadsTo : Option String → List OrderStatusLog → Type 0
LeadsTo at [] = at ≡ none
LeadsTo at (entry ∷ logs) = (at ≡ some entry.to_status) × LeadsTo entry.from_status logs

-- The stored text names one of the nine states.
abbrev pub HasStatus : SalesOrder → Type 0
HasStatus row = is_some (parse_unified (some row.unified_status)) ≡ true

pub record OrdersOk (s : Session) : Type 0 where
  pub keys : IsTable s.orders
  pub used : All (λ row. row.id < s.next_id) s.orders
  pub known : All HasStatus s.orders
  pub logged :
      (id : ℕ) → LeadsTo (stored_status (find_order id s.orders)) (logs_for id s.status_logs)

-- The invariant while the log of one order lags behind: it leads to `at`.
pub record Lagging (id : ℕ) (at : Option String) (s : Session) : Type 0 where
  pub keys : IsTable s.orders
  pub used : All (λ row. row.id < s.next_id) s.orders
  pub known : All HasStatus s.orders
  pub others_logged :
      (i : ℕ)
      → (id == i) ≡ false
      → LeadsTo (stored_status (find_order i s.orders)) (logs_for i s.status_logs)
  pub this_logged : LeadsTo at (logs_for id s.status_logs)

pub OrdersOk-Same : (s s' : Session) → OrdersOk s → SameOrders s s' → OrdersOk s'
OrdersOk-Same s s' h same = record {
  keys = rw (same.orders) h.keys;
  used = rw (same.orders, same.next_id) h.used;
  known = rw (same.orders) h.known;
  logged = λ id. rw (same.orders, same.logs) (h.logged id);
}

pub logs-append :
    (i : ℕ) (entry : OrderStatusLog) (logs : List OrderStatusLog)
    → logs_for i (entry ∷ logs)
      ≡ (if entry.order_id == i then entry ∷ logs_for i logs else logs_for i logs)
unfolding logs_for
logs-append i entry logs = ground arith

abbrev pub IsKnownAt : Option String → Type 0
IsKnownAt none = Unit
IsKnownAt (some text) = is_some (parse_unified (some text)) ≡ true

abbrev pub Continues : Option String → StatusDecision → DecisionKind → Type 0
Continues at d apply = value_of d.from_status ≡ at
Continues at d unchanged = at ≡ some (value d.to_status)
Continues at d reject = at ≡ some (value d.to_status)

decide_known-Continues :
    (c t : UnifiedStatus) (source : StatusChangeSource)
    → Continues (some (value c)) (decide_known c t source) (decide_known c t source).kind
unfolding decide_known
decide_known-Continues c t source = elim (Bool-cases (same c t)) [
  | inl e ↦ rw e refl
  | inr e ↦ elim (Bool-cases (allowed c t source)) [
    | inl f ↦ rw (e, f) refl
    | inr f ↦ rw (e, f) refl
  ]
]

-- A decision moves the order from where its log leads, or leaves it there.
pub decide-Continues :
    (at : Option String) (target : Option UnifiedStatus) (source : StatusChangeSource)
    → IsKnownAt at
    → Continues at
        (decide_status (parse_unified at) target source)
        (decide_status (parse_unified at) target source).kind
unfolding decide_status
decide-Continues none none source h = unfold parse_unified in refl
decide-Continues none (some t) source h = unfold parse_unified in refl
decide-Continues (some text) target source h = elim (Option-cases (parse_unified (some text))) [
  | inl bad ↦ absurd (cc (rw bad at h))
  | inr (c, good) ↦ rw (good, parsed_text text c good) (go target c)
]
  where
    go :
        (o : Option UnifiedStatus) (c : UnifiedStatus)
        → Continues
            (some (value c))
            (decide_status (some c) o source)
            (decide_status (some c) o source).kind
    go none c = refl
    go (some t) c = decide_known-Continues c t source

-- A row was written with the status `to`: its log still leads to `at`.
pub record Written (row : SalesOrder) (at : Option String) (to : UnifiedStatus) (s : Session)
    : Type 0 where
  pub found : find_order row.id s.orders ≡ some row
  pub status : row.unified_status ≡ value to
  pub lag : Lagging row.id at s

pub same_self : (n : ℕ) → (n == n) ≡ true
same_self n = ground arith

pub same_id : (m n : ℕ) → (m == n) ≡ true → m ≡ n
same_id m n h = ground arith

-- The log of an order leads to where the order is.
closes :
    (row : SalesOrder) (at : Option String) (to : UnifiedStatus) (s : Session)
    → Written row at to s
    → LeadsTo (some (value to)) (logs_for row.id s.status_logs)
    → OrdersOk s
closes row at to s w h = record {
  keys = w.lag.keys;
  used = w.lag.used;
  known = w.lag.known;
  logged = λ i. elim (Bool-cases (row.id == i)) [
    | inl hit ↦
        subst (λ n. LeadsTo (stored_status (find_order n s.orders)) (logs_for n s.status_logs))
          (same_id row.id i hit) (rw (w.found, w.status) h)
    | inr miss ↦ w.lag.others_logged i miss
  ];
}

-- An entry that tells what was written brings the log up to date.
pub appended-Ok :
    (row : SalesOrder) (at : Option String) (to : UnifiedStatus) (s : Session)
    (entry : OrderStatusLog)
    → Written row at to s
    → entry.order_id ≡ row.id
    → entry.to_status ≡ value to
    → entry.from_status ≡ at
    → OrdersOk (record s { status_logs = entry ∷ s.status_logs })
appended-Ok row at to s entry w e1 e2 e3 =
    closes row (some (value to)) to (record s { status_logs = entry ∷ s.status_logs })
      (record {
        found = w.found;
        status = w.status;
        lag = record {
          keys = w.lag.keys;
          used = w.lag.used;
          known = w.lag.known;
          others_logged = λ i miss.
              rw (logs-append i entry s.status_logs, e1, miss) (w.lag.others_logged i miss);
          this_logged = here;
        };
      })
      here
  where
    here : LeadsTo (some (value to)) (logs_for row.id (entry ∷ s.status_logs))
    here =
        rw (logs-append row.id entry s.status_logs, e1, same_self row.id)
          (ap some (sym e2), rw e3 w.lag.this_logged)

-- Once the decision is logged, the tables are as they should be.
pub log-Ok :
    (row : SalesOrder) (at : Option String) (d : StatusDecision) (s : Session)
    (source : StatusChangeSource) (kind : DecisionKind)
    → Written row at d.to_status s
    → Continues at d kind
    → OrdersOk (log_decision row.id d source kind s).1
unfolding log_decision append_log
log-Ok row at d s source apply w h =
    let entry : OrderStatusLog = record {
      order_id = row.id;
      from_status = value_of d.from_status;
      to_status = value d.to_status;
      source = source;
      remark = remark_of d.unmapped;
    } in
    appended-Ok row at d.to_status s entry w refl refl h
log-Ok row at d s source unchanged w h = closes row at d.to_status s w (rw (← h) w.lag.this_logged)
log-Ok row at d s source reject w h = closes row at d.to_status s w (rw (← h) w.lag.this_logged)
