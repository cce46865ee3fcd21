-- ===== src/Sync/Rounds/Laws.antt =====
-- The rounds leave no gap.
use cross_pilot.Prelude.Text.{String}
use cross_pilot.Sync.Rounds.{
  OrderSyncWindow, Stored, mark_of, pending, window, later_mark, save, save_if, Round, sync_round,
}
use cross_pilot.Sync.Cursor.{CursorCheckpoint}
use cross_pilot.Prelude.Int.{ℤ, ◌≤ℤ◌}
use cross_pilot.Prelude.{
  ◌==◌, ◌≡◌, refl, Bool, true, false, not, ◌&&◌, Option, none, some, List, [], ◌∷◌,
}

-- What was updated after the mark is not passed over.
abbrev pub StartsBy : Option ℤ → ℤ → Type 0
StartsBy none since = Unit
StartsBy (some mark) since = since ≤ℤ mark

abbrev pub pulls_all : Round → Bool
pulls_all r = not r.errored && (r.failed == 0 && r.complete)

-- The mark moves, to the end of the window unless it is further, after a pull of the whole window
-- without an error or a failed order, and after no other.
abbrev pub MovesMark : Bool → Option ℤ → Option ℤ → ℤ → Type 0
MovesMark true old new until = new ≡ later_mark old (some until)
MovesMark false old new until = new ≡ old

abbrev PendingBy : Option ℤ → Option OrderSyncWindow → Type 0
PendingBy mark none = Unit
PendingBy mark (some w) = StartsBy mark w.since

module _ (overlap lookback : ℤ) where
  abbrev pub Gapless : List Round → Stored → Type 0
  Gapless [] stored = Unit
  Gapless (r ∷ rs) stored =
      StartsBy (mark_of stored) (window stored r.now overlap lookback).since
      × MovesMark (pulls_all r) (mark_of stored) (mark_of (sync_round overlap lookback r stored))
          (window stored r.now overlap lookback).until
      × Gapless rs (sync_round overlap lookback r stored)

save_if-mark :
    (c : CursorCheckpoint) (stored : Stored)
    → mark_of (save_if (some c) stored) ≡ later_mark (mark_of stored) c.cursor_at
unfolding save
save_if-mark c none = go c.cursor_at
  where
    go : (o : Option ℤ) → o ≡ later_mark none o
    go none = refl
    go (some at) = refl
save_if-mark c (some row) = refl

-- What a round leaves: the mark moved as it should, and the window that is left to be pulled starts by
-- the mark.
abbrev RoundOk : Bool → Stored → ℤ → Stored → Type 0
RoundOk all stored until new =
    MovesMark all (mark_of stored) (mark_of new) until × PendingBy (mark_of new) (pending new)

all_pulled : ℤ → CursorCheckpoint
all_pulled until = record {
  cursor_at = some until;
  resume_cursor = none;
  resume_since = none;
  resume_until = none;
}

stopped_at : String → ℤ → ℤ → CursorCheckpoint
stopped_at cursor since until = record {
  cursor_at = none;
  resume_cursor = some cursor;
  resume_since = some since;
  resume_until = some until;
}
