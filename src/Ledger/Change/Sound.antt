-- ===== src/Ledger/Change/Sound.antt =====
-- No change to a row breaks the constraints of the table, whatever other transactions do.
use cross_pilot.Prelude.Int.{ℤ}
use cross_pilot.Prelude.{Bool-cases, All, ℕ, inl, inr, List, [], ◌∷◌}
use cross_pilot.Ledger.Tables.{Inventory, Delta, update_row}
use cross_pilot.Ledger.Exec.{Write, Session}
use cross_pilot.Ledger.Exec.Keeps.{Keeps}
use cross_pilot.Ledger.Change.{
  interfere_with, interfere, update_once, apply_change, apply_once, Note, append_flow, touch,
  commit_change,
}
use cross_pilot.Ledger.Change.Keeping.{commit_change-Keeps}
use cross_pilot.Ledger.Change.Rows.{
  IsSound, PairsApart, update_row-PairsApart, write_all-PairsApart, update_row-IsSound,
  write_all-IsSound,
}

-- Every row of the inventory satisfies the CHECK constraints of its table, and no two rows have the
-- same SKU and warehouse.
pub record LedgerSound (s : Session) : Type 0 where
  pub rows : All IsSound s.inventories
  pub apart : PairsApart s.inventories

pub interfere-Sound : (s : Session) → LedgerSound s → LedgerSound (interfere s)
unfolding interfere
interfere-Sound s h = go s.others
  where
    go : (o : List (List Write)) → LedgerSound (interfere_with o s)
    go [] = h
    go (ws ∷ rest) = record {
      rows = write_all-IsSound ws s.inventories h.rows;
      apart = write_all-PairsApart ws s.inventories h.apart;
    }

update_once-Sound :
    (id version : ℕ) (d : Delta) (s : Session)
    → LedgerSound s
    → LedgerSound (update_once id version d s).1
unfolding update_once
update_once-Sound id version d s h = elim (Bool-cases (update_row id version d s.inventories).1) [
  | inl hit ↦ rw hit (record {
    rows = update_row-IsSound id version d s.inventories h.rows;
    apart = update_row-PairsApart id version d s.inventories h.apart;
  })
  | inr miss ↦ rw miss h
]

pub apply_once-Keeps : (row : Inventory) (d : Delta) → Keeps LedgerSound (apply_once row d)
unfolding apply_once apply_change
apply_once-Keeps row d = record {
  at = λ s h. update_once-Sound row.id row.version d (interfere s) (interfere-Sound s h);
}

pub append_flow-Keeps :
    (row : Inventory) (note : Note) (b a : ℤ) → Keeps LedgerSound (append_flow row note b a)
unfolding append_flow
append_flow-Keeps row note b a = record { at = λ s h. record { rows = h.rows; apart = h.apart } }

pub touch-Keeps : (sku_id : ℕ) → Keeps LedgerSound (touch sku_id)
unfolding touch
touch-Keeps sku_id = record { at = λ s h. record { rows = h.rows; apart = h.apart } }

pub commit_change-Sound :
    (row : Inventory) (note : Note) (d : Delta) → Keeps LedgerSound (commit_change row note d)
commit_change-Sound = commit_change-Keeps apply_once-Keeps append_flow-Keeps touch-Keeps
