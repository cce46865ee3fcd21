-- ===== src/Ledger/Returns/Sound.antt =====
-- Returns keep the constraints of the ledger's tables.
use cross_pilot.Prelude.{ℕ}
use cross_pilot.Ledger.Exec.Keeps.{Keeps}
use cross_pilot.Ledger.Change.Sound.{LedgerSound, touch-Keeps, commit_change-Sound}
use cross_pilot.Ledger.Orders.Sound.{flush_enqueue-Keeps}
use cross_pilot.Ledger.Direct.Sound.{ensure-Keeps}
use cross_pilot.Sales.Tables.{ReturnOrder}
use cross_pilot.Ledger.Returns.{set_return, receive_return}
use cross_pilot.Ledger.Returns.Keeping.{receive_return-Keeps}

set_return-Sound : (id : ℕ) (f : ReturnOrder → ReturnOrder) → Keeps LedgerSound (set_return id f)
unfolding set_return
set_return-Sound id f = record { at = λ s h. record { rows = h.rows; apart = h.apart } }

pub receive_return-Sound : (row : ReturnOrder) → Keeps LedgerSound (receive_return row)
receive_return-Sound =
    receive_return-Keeps ensure-Keeps commit_change-Sound touch-Keeps set_return-Sound
      flush_enqueue-Keeps
