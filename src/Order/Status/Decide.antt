-- ===== src/Order/Status/Decide.antt =====
-- What one decision of the status machine may do.
use cross_pilot.Prelude.{ℕ, ◌≤◌, ◌≡◌, true, Option, none, some, arith}
use cross_pilot.Order.Status.{
  UnifiedStatus, pending, paid, shipped, delivered, completed, cancelled, refunding, refunded,
  returned, StatusChangeSource, manual, allowed, decide_known, decide_status,
}

-- How far an order has come: along the main chain, then refunding, then paid back or sent back,
-- with cancelled at the end.
abbrev pub level : UnifiedStatus → ℕ
level pending = 0
level paid = 1
level shipped = 2
level delivered = 3
level completed = 4
level refunding = 5
level refunded = 6
level returned = 6
level cancelled = 7

pub allowed-level :
    (c t : UnifiedStatus) (s : StatusChangeSource) → allowed c t s ≡ true → level c ≤ level t
unfolding allowed
allowed-level c t s h = ground arith

-- Every move open to a person is open to polling and to webhooks too.
pub manual-allowed :
    (c t : UnifiedStatus) (s : StatusChangeSource)
    → allowed c t manual ≡ true
    → allowed c t s ≡ true
unfolding allowed
manual-allowed c t s h = ground arith

-- A cancelled order stays cancelled, whatever target any source reports.
pub cancelled_absorbs :
    (target : Option UnifiedStatus) (s : StatusChangeSource)
    → (decide_status (some cancelled) target s).to_status ≡ cancelled
unfolding decide_status decide_known allowed
cancelled_absorbs target s = ground arith

pub decide_status-level :
    (c : UnifiedStatus) (target : Option UnifiedStatus) (s : StatusChangeSource)
    → level c ≤ level (decide_status (some c) target s).to_status
unfolding decide_status decide_known
decide_status-level c none s = omega arith
decide_status-level c (some t) s = ground (arith, allowed-level c t s)
