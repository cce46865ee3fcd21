-- ===== src/Sync/Rounds.antt =====
-- Rounds of fetching the orders of one shop: `_window` of backend/app/services/order_sync.py without given
-- times, and the checkpoint that `run` saves, with `save` of the cursors in
-- backend/app/repositories/order.py. How a pull ended is given.
pub mod Laws
use cross_pilot.Sync.Cursor.{order_sync_window, is_set, CursorCheckpoint, checkpoint_for}
use cross_pilot.Prelude.Text.{String}
use cross_pilot.Prelude.Int.{ℤ, ltb_ℤ}
use cross_pilot.Prelude.{if◌then◌else◌, ℕ, Bool, true, false, Option, none, some}

-- `OrderSyncWindow`, whose `advance` is true in each window that is not given.
pub record OrderSyncWindow : Type 0 where
  pub since : ℤ
  pub until : ℤ
  pub page_cursor : Option String

-- The row of `ShopSyncCursor` has the columns of a checkpoint.
abbrev pub Stored : Type 0
Stored = Option CursorCheckpoint

abbrev pub mark_of : Stored → Option ℤ
mark_of none = none
mark_of (some row) = row.cursor_at

abbrev pub pending_of : Bool → Option ℤ → Option ℤ → Option String → Option OrderSyncWindow
pending_of true (some since) (some until) cursor =
    some (record { since = since; until = until; page_cursor = cursor })
pending_of resumes since until cursor = none

-- The window that a pull stopped in.
abbrev pub pending : Stored → Option OrderSyncWindow
pending none = none
pending (some row) =
    pending_of (is_set row.resume_cursor) row.resume_since row.resume_until row.resume_cursor

abbrev pub window_or : Option OrderSyncWindow → ℤ × ℤ → OrderSyncWindow
window_or (some w) span = w
window_or none span = record { since = span.0; until = span.1; page_cursor = none }

-- `_window`
unfoldable pub window : Stored → ℤ → ℤ → ℤ → OrderSyncWindow
window stored now overlap lookback =
    window_or (pending stored) (order_sync_window (mark_of stored) now overlap lookback)

abbrev pub later_mark : Option ℤ → Option ℤ → Option ℤ
later_mark mark none = mark
later_mark none (some at) = some at
later_mark (some mark) (some at) = if ltb_ℤ mark at then some at else some mark

-- `save`
unfoldable pub save : CursorCheckpoint → Stored → CursorCheckpoint
save c none = c
save c (some row) = record c { cursor_at = later_mark row.cursor_at c.cursor_at }

abbrev pub save_if : Option CursorCheckpoint → Stored → Stored
save_if none stored = stored
save_if (some c) stored = some (save c stored)

-- A round: when it begins, and how its pull and the ingestion of what it gave ended.
pub record Round : Type 0 where
  pub now : ℤ
  pub complete : Bool
  pub errored : Bool
  pub failed : ℕ
  pub resume_cursor : Option String

module _ (overlap lookback : ℤ) where
  unfoldable pub sync_round : Round → Stored → Stored
  sync_round r stored =
      let w = window stored r.now overlap lookback in
      if r.errored
      then stored
      else save_if (checkpoint_for r.complete false r.failed w.until r.resume_cursor w.since) stored
