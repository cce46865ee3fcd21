-- ===== src/Sales/Ship.antt =====
-- The batch that ships orders: backend/app/services/order_ship.py, and `get_for_order` and `save` of
-- `ShipmentRepository` in backend/app/repositories/order_read.py. The texts of messages are named by
-- their causes; carriers, reasons and times of a shipment are only stored, and are left out.
use cross_pilot.Sync.Idempotency.{TextMethods, is_blank}
use cross_pilot.Prelude.Text.{String}
use cross_pilot.Prelude.Result.{Result, ok, err}
use cross_pilot.Prelude.Int.{ℤ}
use cross_pilot.Prelude.{
  ltb, ◌==◌, if◌then◌else◌, length, ℕ, zero, suc, ◌-◌, Bool, true, false, ◌||◌, Option, none, some,
  List, [], ◌∷◌,
}
use cross_pilot.Desk.{Block, review_blocks_ship}
use cross_pilot.Ledger.Exec.{
  LedgerError, param_invalid, order_not_found, Session, Exec, pure, raise, gets, modify, or_raise,
  raise_when, ◌>>=◌, ◌>>◌,
}
use cross_pilot.Ledger.Change.{interfere, has_sku}
use cross_pilot.Ledger.Orders.{ship_order}
use cross_pilot.Order.Status.{
  shipped, manual, DecisionKind, apply, unchanged, reject, value, parse_unified, decide_status,
}
use cross_pilot.Sales.Tables.{SalesOrder, Shipment, find_order}
use cross_pilot.Sales.Upsert.{set_order}
use cross_pilot.Sales.Ingest.{append_log}

pub record ShipTarget : Type 0 where
  pub order_id : ℕ
  pub unified_status : String
  pub attempt : ℕ
  pub review_status : String

pub data ShipMessage : Type 0 where
  order_absent not_shippable sent_back : ShipMessage
  held_back : Block → ShipMessage
  failed_with : LedgerError → ShipMessage

pub record ShipLine : Type 0 where
  pub order_id : ℕ
  pub succeeded : Bool
  pub tracking_no : Option String
  pub message : ShipMessage

-- What a batch is given: the platforms' answers to a push, which is refused with an exception, the
-- tracking numbers, the text of a log's remark, and the time.
pub record ShipTools : Type 0 where
  pub push : ShipTarget → String → String → Option LedgerError
  pub tracking_for : ℕ → ℕ → String
  pub remark_for : String → String → String
  pub now : ℤ

unfoldable pub check_batch_size : ℕ → ℕ → Option LedgerError
check_batch_size count limit = if count == 0 || ltb limit count then some param_invalid else none

unfoldable pub dedupe_from : List ℕ → List ℕ → List ℕ
unfolding has_sku
dedupe_from seen [] = []
dedupe_from seen (order_id ∷ order_ids) =
    let rest = dedupe_from seen order_ids in
    let fresh = dedupe_from (order_id ∷ seen) order_ids in
    if has_sku order_id seen then rest else order_id ∷ fresh

unfoldable pub dedupe_ids : List ℕ → List ℕ
unfolding dedupe_from
dedupe_ids order_ids = dedupe_from [] order_ids

abbrev pub unless_applied : DecisionKind → Option ShipMessage
unless_applied apply = none
unless_applied unchanged = some not_shippable
unless_applied reject = some not_shippable

unfoldable pub refuse_ship : String → Option ShipMessage
refuse_ship unified_status =
    unless_applied (decide_status (parse_unified (some unified_status)) (some shipped) manual).kind

abbrev pub or_held : Option ShipMessage → Option Block → Option ShipMessage
or_held (some reason) block = some reason
or_held none (some block) = some (held_back block)
or_held none none = none

-- `refuse_ship(...) or review_blocks_ship(...)`
unfoldable pub ship_reason : ShipTarget → Option ShipMessage
unfolding refuse_ship
ship_reason target =
    or_held (refuse_ship target.unified_status) (review_blocks_ship target.review_status)

unfoldable pub catch_up : ℕ → Session → Session
catch_up zero s = s
catch_up (suc n) s = catch_up n (interfere s)

-- Back to the savepoint `s` from `s'`: what other transactions committed since then stays, and so do
-- the pushes that were handed over.
unfoldable pub roll_back : Session → Session → Session
unfolding catch_up
roll_back s s' = catch_up (length s.others - length s'.others) (record s { queue = s'.queue })

abbrev pub keep_or_roll_back :
    {A : Type 0}
    → Session
    → Result LedgerError A × Session
    → Result LedgerError (Result LedgerError A) × Session
keep_or_roll_back s (ok a, s') = (ok (ok a), s')
keep_or_roll_back s (err e, s') = (ok (err e), roll_back s s')

-- `try: async with book.atomic(): ... except Exception`
unfoldable pub try_atomic : {A : Type 0} → Exec A → Exec (Result LedgerError A)
try_atomic body s = keep_or_roll_back s (body s)

unfoldable pub get_for_order : ℕ → List Shipment → Option Shipment
get_for_order order_id [] = none
get_for_order order_id (row ∷ rows) =
    if row.order_id == order_id then some row else get_for_order order_id rows

unfoldable pub save_shipment : Shipment → List Shipment → List Shipment
save_shipment new [] = new ∷ []
save_shipment new (row ∷ rows) =
    let rest = save_shipment new rows in
    if row.order_id == new.order_id then new ∷ rows else row ∷ rest

-- `save` of the shipments
unfoldable pub save : ℕ → Bool → String → ℕ → Exec (Unit {0})
unfolding save_shipment
save order_id succeeded tracking_no attempt = modify (λ s. record s {
  shipments =
      save_shipment
        (record {
          order_id = order_id;
          succeeded = succeeded;
          tracking_no = tracking_no;
          attempt = attempt;
        })
        s.shipments;
})

abbrev pub attempt_of : Option Shipment → ℕ
attempt_of none = 0
attempt_of (some shipment) = shipment.attempt

abbrev pub target_of : Option SalesOrder → Option Shipment → Option ShipTarget
target_of none shipment = none
target_of (some order) shipment = some (record {
  order_id = order.id;
  unified_status = order.unified_status;
  attempt = attempt_of shipment;
  review_status = order.review_status;
})

unfoldable pub load : ℕ → Exec (Option ShipTarget)
load order_id =
    gets (λ s. target_of (find_order order_id s.orders) (get_for_order order_id s.shipments))

-- the columns that `commit_success` sets
unfoldable pub mark_shipped : ℤ → SalesOrder → SalesOrder
mark_shipped now order = record order { unified_status = value shipped; shipped_at = some now }

unfoldable pub commit_success : ShipTools → ShipTarget → String → String → ℕ → Exec (Unit {0})
commit_success tools target carrier tracking_no attempt = do
  o ← gets (λ s. find_order target.order_id s.orders)
  order ← or_raise o order_not_found
  set_order order.id (mark_shipped tools.now)
  append_log order.id (some order.unified_status) (value shipped) manual
      (some (tools.remark_for carrier tracking_no))
  save order.id true tracking_no attempt
  ship_order order.id

abbrev pub raise_error : Option LedgerError → Exec (Unit {0})
raise_error none = pure tt
raise_error (some e) = raise e

-- the body of the first savepoint
unfoldable pub push_and_commit : ShipTools → ShipTarget → String → String → ℕ → Exec (Unit {0})
push_and_commit tools target carrier tracking_no attempt =
    raise_error (tools.push target carrier tracking_no)
    >> commit_success tools target carrier tracking_no attempt

-- `_record_failure`: what goes wrong here is logged and swallowed.
unfoldable pub record_failure : ShipTarget → ℕ → Exec (Unit {0})
record_failure target attempt = do r ← try_atomic (save target.order_id false "" attempt); pure tt

abbrev pub refused : ℕ → ShipMessage → ShipLine
refused order_id message = record {
  order_id = order_id;
  succeeded = false;
  tracking_no = none;
  message = message;
}

unfoldable pub finish_ship : ShipTarget → String → ℕ → Result LedgerError (Unit {0}) → Exec ShipLine
finish_ship target tracking_no attempt (ok done) = pure (record {
  order_id = target.order_id;
  succeeded = true;
  tracking_no = some tracking_no;
  message = sent_back;
})
finish_ship target tracking_no attempt (err e) =
    record_failure target attempt >> pure (refused target.order_id (failed_with e))

unfoldable pub attempt_ship : ShipTools → ShipTarget → String → Exec ShipLine
attempt_ship tools target carrier = do
  let attempt = suc target.attempt
  let tracking_no = tools.tracking_for target.order_id attempt
  r ← try_atomic (push_and_commit tools target carrier tracking_no attempt)
  finish_ship target tracking_no attempt r

abbrev pub ship_unless : ShipTools → ShipTarget → String → Option ShipMessage → Exec ShipLine
ship_unless tools target carrier (some reason) = pure (refused target.order_id reason)
ship_unless tools target carrier none = attempt_ship tools target carrier

unfoldable pub ship_target : ShipTools → ℕ → String → Option ShipTarget → Exec ShipLine
ship_target tools order_id carrier none = pure (refused order_id order_absent)
ship_target tools order_id carrier (some target) =
    ship_unless tools target carrier (ship_reason target)

-- `_ship_one`
unfoldable pub ship_one : ShipTools → String → ℕ → Exec ShipLine
ship_one tools carrier order_id = load order_id >>= ship_target tools order_id carrier

unfoldable pub run_ship_batch : ShipTools → String → List ℕ → Exec (List ShipLine)
run_ship_batch tools carrier [] = pure []
run_ship_batch tools carrier (order_id ∷ order_ids) = do
  line ← ship_one tools carrier order_id
  lines ← run_ship_batch tools carrier order_ids
  pure (line ∷ lines)

-- `batch_ship` of the service; its entry in the audit log is left out
unfoldable pub batch_ship : TextMethods → ShipTools → ℕ → List ℕ → String → Exec (List ShipLine)
batch_ship py tools limit order_ids carrier = do
  let unique = dedupe_ids order_ids
  raise_error (check_batch_size (length unique) limit)
  raise_when (is_blank (py.strip carrier)) param_invalid
  run_ship_batch tools (py.strip carrier) unique
