-- ===== src/Desk.antt =====
-- The order desk, backend/app/engines/order_desk.py, and the tickets of customer service,
-- backend/app/engines/cs.py. A status or an action is the source's string; texts that are not listed
-- are kept as they are. An amount, in Python a `Decimal`, is a whole number of its smallest unit, since
-- amounts are only compared. A time is its microseconds since an epoch.
pub mod Laws
mod Tests
use cross_pilot.Prelude.{
  if◌then◌else◌, Bool, true, false, not, ◌&&◌, ◌||◌, Option, none, some, List, [], ◌∷◌, ◌++◌,
}
use cross_pilot.Prelude.Text.{String, str_eq, mem_text}
use cross_pilot.Prelude.Int.{ℤ, pos, ◌+ℤ◌, ◌-ℤ◌, ◌*ℤ◌, ltb_ℤ, leb_ℤ, max_ℤ}
use cross_pilot.Prelude.Result.{Result, ok, err}

pub record AmountRule : Type 0 where
  pub currency : String
  pub amount_gt : ℤ
  pub enabled : Bool

-- Does a rule ask for a review? `upper` is the case mapping of `rule.currency`, and `code` the
-- order's currency, stripped and in capitals.
unfoldable pub any_rule : (String → String) → ℤ → String → List AmountRule → Bool
any_rule upper total code [] = false
any_rule upper total code (rule ∷ rules) =
    rule.enabled && str_eq (upper rule.currency) code && ltb_ℤ rule.amount_gt total
    || any_rule upper total code rules

unfoldable pub amount_needs_review :
    (String → String) → (String → String) → ℤ → String → List AmountRule → Bool
unfolding any_rule
amount_needs_review upper strip total currency rules =
    any_rule upper total (upper (strip currency)) rules

-- `current in _LOCKED_REVIEW`
abbrev pub is_locked : String → Bool
is_locked current = str_eq current "APPROVED" || str_eq current "REJECTED"

abbrev pub computed_review : Bool → String
computed_review true = "PENDING"
computed_review false = "AUTO_PASSED"

unfoldable pub next_review_status : Option String → Bool → String
next_review_status none needs_review = computed_review needs_review
next_review_status (some current) needs_review =
    if is_locked current then current else computed_review needs_review

pub data Block : Type 0 where
  pending_review rejected_review unknown_review : Block

unfoldable pub review_blocks_ship : String → Option Block
review_blocks_ship status =
    if str_eq status "PENDING"
    then some pending_review
    else if str_eq status "REJECTED"
    then some rejected_review
    else if not (str_eq status "AUTO_PASSED" || str_eq status "APPROVED")
    then some unknown_review
    else none

pub data ExceptionKind : Type 0 where
  sku_unmatched address_bad ship_due_soon ship_overdue review_pending : ExceptionKind

abbrev pub hours : ℤ → ℤ
hours n = n *ℤ pos 3_600_000_000

unfoldable pub ship_deadline : Option ℤ → ℤ → Option ℤ
ship_deadline none sla_hours = none
ship_deadline (some paid_at) sla_hours = some (paid_at +ℤ hours sla_hours)

abbrev pub window_at : Option ℤ → ℤ → ℤ → Option ExceptionKind
window_at none now warn = none
window_at (some deadline) now warn =
    if leb_ℤ deadline now
    then some ship_overdue
    else if leb_ℤ (deadline -ℤ warn) now
    then some ship_due_soon
    else none

unfoldable pub ship_window : String → Option ℤ → ℤ → ℤ → ℤ → Option ExceptionKind
unfolding ship_deadline
ship_window unified_status paid_at now sla_hours warn_hours =
    if str_eq unified_status "PAID"
    then window_at (ship_deadline paid_at sla_hours) now (hours (max_ℤ warn_hours (pos 0)))
    else none

-- The three texts of an address that are looked at, stripped; what is no text is empty.
pub record Address : Type 0 where
  pub country : String
  pub line1 : String
  pub city : String

abbrev pub is_empty : String → Bool
is_empty text = str_eq text ""

unfoldable pub address_invalid : Option Address → Bool
address_invalid none = true
address_invalid (some a) = is_empty a.country || is_empty a.line1 && is_empty a.city

abbrev pub when : Bool → ExceptionKind → List ExceptionKind
when true kind = kind ∷ []
when false kind = []

abbrev pub listed : Option ExceptionKind → List ExceptionKind
listed none = []
listed (some kind) = kind ∷ []

unfoldable pub classify_exceptions :
    String → String → Option Address → Bool → Option ℤ → ℤ → ℤ → ℤ → List ExceptionKind
unfolding address_invalid
classify_exceptions unified_status review_status ship_to unmatched paid_at now sla warn =
    when unmatched sku_unmatched
    ++ when (address_invalid ship_to) address_bad
    ++ listed (ship_window unified_status paid_at now sla warn)
    ++ when (str_eq review_status "PENDING") review_pending

-- the entries of `allowed` in `decide_return`
abbrev pub allowed_returns : List ((String × String) × String)
allowed_returns =
    (("REQUESTED", "approve"), "APPROVED")
    ∷ (("REQUESTED", "reject"), "REJECTED")
    ∷ (("APPROVED", "refund"), "REFUNDED")
    ∷ []

unfoldable pub find_return : String → String → List ((String × String) × String) → Option String
find_return current action [] = none
find_return current action (((from, how), to) ∷ rest) =
    if str_eq from current && str_eq how action then some to else find_return current action rest

unfoldable pub decide_return : String → String → Option String
unfolding find_return
decide_return current action = find_return current action allowed_returns

unfoldable pub restock_after_refund : Bool → String
restock_after_refund true = "DEFERRED"
restock_after_refund false = "NONE"

pub data ValueError : Type 0 where
  unknown_status closed_ticket unknown_action naive_time bad_hours bad_warn : ValueError

pub data SlaLevel : Type 0 where
  sla_ok sla_warn sla_overdue : SlaLevel

-- times with a time zone, which the source asks of every time it is given
unfoldable pub sla_level : ℤ → ℤ → ℤ → Result ValueError SlaLevel
sla_level deadline now warn =
    if ltb_ℤ warn (pos 0)
    then err bad_warn
    else if leb_ℤ deadline now
    then ok sla_overdue
    else if leb_ℤ (deadline -ℤ now) warn
    then ok sla_warn
    else ok sla_ok

abbrev pub is_ticket : String → Bool
is_ticket s = mem_text s ("OPEN" ∷ "ASSIGNED" ∷ "IN_PROGRESS" ∷ "CLOSED" ∷ [])

abbrev pub noted_status : String → String
noted_status current =
    if str_eq current "OPEN" || str_eq current "ASSIGNED" then "IN_PROGRESS" else current

unfoldable pub next_ticket_status : String → String → Result ValueError String
next_ticket_status current action =
    if not (is_ticket current)
    then err unknown_status
    else if str_eq current "CLOSED"
    then err closed_ticket
    else if str_eq action "ASSIGN"
    then ok "ASSIGNED"
    else if str_eq action "NOTE"
    then ok (noted_status current)
    else if str_eq action "CLOSE"
    then ok "CLOSED"
    else err unknown_action
