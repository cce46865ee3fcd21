-- ===== src/Sales/Shipping.antt =====
-- What `commit_success` does to an order, and which orders it is tried on.
use cross_pilot.Desk.{Block, review_blocks_ship}
use cross_pilot.Order.Status.{
  UnifiedStatus, paid, shipped, manual, value, parse_unified, allowed, decide_known, decide_status,
}
use cross_pilot.Prelude.Text.{String}
use cross_pilot.Prelude.Int.{ℤ}
use cross_pilot.Prelude.{
  ◌==◌, Bool-cases, Option-cases, ℕ, ◌≡◌, refl, sym, ap, ◌∙◌, inl, inr, true, Option, none, some,
  List, [], ◌∷◌, arith,
}
use cross_pilot.Ledger.Exec.{Session, ◌>>=◌}
use cross_pilot.Ledger.Orders.{is_some, ship_order}
use cross_pilot.Order.Status.Mapping.{parsed_text}
use cross_pilot.Sales.Tables.{SalesOrder, find_order}
use cross_pilot.Sales.Rows.{KeepsKey}
use cross_pilot.Sales.Upsert.{set_order}
use cross_pilot.Sales.Ingest.{append_log}
use cross_pilot.Sales.Invariant.{OrdersOk, same_id, appended-Ok}
use cross_pilot.Sales.Writing.{update-Written}
use cross_pilot.Sales.Ship.{
  ShipTarget, ShipMessage, ShipTools, unless_applied, refuse_ship, or_held, ship_reason, save,
  mark_shipped, commit_success,
}

-- The session before `ship_order` is called by `commit_success`.
unfoldable pub prepared : ShipTools → SalesOrder → String → String → ℕ → Session → Session
prepared tools order carrier tracking_no attempt s =
    (save order.id true tracking_no attempt
      (append_log order.id (some order.unified_status) (value shipped) manual
        (some (tools.remark_for carrier tracking_no))
        (set_order order.id (mark_shipped tools.now) s).1).1).1

pub commit_runs :
    (tools : ShipTools) (target : ShipTarget) (carrier tracking_no : String) (attempt : ℕ)
    (order : SalesOrder) (s : Session)
    → find_order target.order_id s.orders ≡ some order
    → commit_success tools target carrier tracking_no attempt s
      ≡ ship_order order.id (prepared tools order carrier tracking_no attempt s)
unfolding commit_success prepared ◌>>=◌ set_order append_log save
commit_runs tools target carrier tracking_no attempt order s h = rw h refl

pub mark_shipped-KeepsKey : (now : ℤ) → KeepsKey (mark_shipped now)
unfolding mark_shipped
mark_shipped-KeepsKey now = record { on_id = λ row. refl; on_key = λ row. refl }

pub prepared-Ok :
    (tools : ShipTools) (order : SalesOrder) (carrier tracking_no : String) (attempt : ℕ)
    (s : Session)
    → OrdersOk s
    → find_order order.id s.orders ≡ some order
    → OrdersOk (prepared tools order carrier tracking_no attempt s)
unfolding prepared set_order append_log save
prepared-Ok tools order carrier tracking_no attempt s h found =
    let w =
      update-Written (mark_shipped tools.now) shipped order s s.items s.next_id
        (mark_shipped-KeepsKey tools.now) (λ r. unfold mark_shipped in refl) h (omega arith)
        found in
    let e =
      appended-Ok (mark_shipped tools.now order) (some order.unified_status) shipped _
        (record {
          order_id = order.id;
          from_status = some order.unified_status;
          to_status = value shipped;
          source = manual;
          remark = some (tools.remark_for carrier tracking_no);
        })
        w (unfold mark_shipped in refl) refl refl in
    record { keys = e.keys; used = e.used; known = e.known; logged = e.logged }

pub id-find :
    (id : ℕ) (rows : List SalesOrder) (row : SalesOrder)
    → find_order id rows ≡ some row
    → row.id ≡ id
unfolding find_order
id-find id [] row h = absurd (cc h)
id-find id (first ∷ rows) row h = elim (Bool-cases (first.id == id)) [
  | inl hit ↦
      let e : first ≡ row = cc (rw hit at h) in ap (λ r. r.id) (sym e) ∙ same_id first.id id hit
  | inr miss ↦ id-find id rows row (rw miss at h)
]

-- Only a paid order passes `refuse_ship`.
refused-paid :
    (c : UnifiedStatus)
    → unless_applied (decide_status (some c) (some shipped) manual).kind ≡ none
    → c ≡ paid
unfolding decide_status decide_known allowed
refused-paid c h = ground arith

unheld : (o : Option ShipMessage) (block : Option Block) → or_held o block ≡ none → o ≡ none
unheld none block h = refl
unheld (some reason) block h = absurd (cc h)

pub reason-paid :
    (target : ShipTarget)
    → is_some (parse_unified (some target.unified_status)) ≡ true
    → ship_reason target ≡ none
    → target.unified_status ≡ value paid
unfolding ship_reason refuse_ship
reason-paid target known h = elim (Option-cases (parse_unified (some target.unified_status))) [
  | inl bad ↦ absurd (cc (rw bad at known))
  | inr (c, good) ↦
      parsed_text target.unified_status c good
      ∙ ap value
          (refused-paid c (unheld _ (review_blocks_ship target.review_status) (rw good at h)))
]
