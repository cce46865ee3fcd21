-- ===== src/Ledger/Change.antt =====
-- The optimistic update of one row: `apply_change` of backend/app/repositories/inventory.py, and
-- `_apply_once`, `_commit_change` and `_append_flow` of backend/app/services/inventory.py.
-- Other transactions commit right before an UPDATE: that covers a row which the session had loaded
-- earlier and holds stale, since nothing but the UPDATE reads the table in between.
pub mod Rows
pub mod Keeping
pub mod Sound
pub mod Commit
pub mod Decided
pub mod Contention
use cross_pilot.Prelude.Text.{String}
use cross_pilot.Prelude.Result.{ok}
use cross_pilot.Prelude.Int.{ℤ}
use cross_pilot.Prelude.{
  ◌==◌, if◌then◌else◌, ℕ, zero, suc, Bool, false, ◌||◌, Option, none, some, List, [], ◌∷◌,
}
use cross_pilot.Ledger.Tables.{Inventory, FlowType, InventoryFlow, Delta, update_row, find_row}
use cross_pilot.Ledger.Exec.{
  inventory_insufficient, inventory_conflict, not_found, Write, Session, Exec, pure, raise, modify,
  ◌>>=◌, ◌>>◌,
}

pub data Status : Type 0 where
  applied conflict insufficient missing : Status

-- What others commit: each of their UPDATEs hits its row or does nothing.
unfoldable pub write_all : List Write → List Inventory → List Inventory
write_all [] rows = rows
write_all (w ∷ ws) rows = write_all ws (update_row w.id w.version w.delta rows).0

-- The next of the others' commits.
unfoldable pub interfere_with : List (List Write) → Session → Session
interfere_with [] s = s
interfere_with (ws ∷ rest) s = record s { inventories = write_all ws s.inventories; others = rest }

unfoldable pub interfere : Session → Session
unfolding interfere_with
interfere s = interfere_with s.others s

-- `apply_change` when no row was hit: what the fresh row says.
unfoldable pub why_not : Option Inventory → ℕ → Status
why_not none version = missing
why_not (some current) version = if current.version == version then insufficient else conflict

unfoldable pub update_once : ℕ → ℕ → Delta → Session → Status × Session
update_once id version d s =
    let (rows, hit) = update_row id version d s.inventories in
    if hit
    then (applied, record s { inventories = rows })
    else (why_not (find_row id s.inventories) version, s)

unfoldable pub apply_change : ℕ → ℕ → Delta → Session → Status × Session
unfolding interfere update_once
apply_change id version d s = update_once id version d (interfere s)

-- `_apply_once`: the row is read again when it was changed, by this session or by others.
unfoldable pub fresh_row : Status → ℕ → List Inventory → Option Inventory
fresh_row applied id rows = find_row id rows
fresh_row conflict id rows = find_row id rows
fresh_row insufficient id rows = none
fresh_row missing id rows = none

unfoldable pub apply_once : Inventory → Delta → Exec (Status × Option Inventory)
unfolding fresh_row
apply_once row d s =
    let (status, s') = apply_change row.id row.version d s in
    (ok (status, fresh_row status row.id s'.inventories), s')

pub data Bucket : Type 0 where
  available occupied in_transit defective : Bucket

-- `getattr(row, before_name)`
abbrev pub getattr : Inventory → Bucket → ℤ
getattr row available = row.available
getattr row occupied = row.occupied
getattr row in_transit = row.in_transit
getattr row defective = row.defective

-- The keyword arguments of `_commit_change`, but for the deltas.
pub record Note : Type 0 where
  pub flow_type : FlowType
  pub quantity : ℤ
  pub before_name : Bucket
  pub ref_type : String
  pub ref_id : Option ℕ

unfoldable pub flow_of : Inventory → Note → ℤ → ℤ → InventoryFlow
flow_of row note before_qty after_qty = record {
  inventory_id = row.id;
  sku_id = row.sku_id;
  warehouse_id = row.warehouse_id;
  flow_type = note.flow_type;
  quantity = note.quantity;
  ref_type = note.ref_type;
  ref_id = note.ref_id;
  before_qty = before_qty;
  after_qty = after_qty;
}

-- `_append_flow`
unfoldable pub append_flow : Inventory → Note → ℤ → ℤ → Exec (Unit {0})
append_flow row note before_qty after_qty =
    modify (λ s. record s { flows = flow_of row note before_qty after_qty ∷ s.flows })

unfoldable pub has_sku : ℕ → List ℕ → Bool
has_sku sku_id [] = false
has_sku sku_id (k ∷ ks) = k == sku_id || has_sku sku_id ks

-- `self._touched.add(sku_id)`
unfoldable pub touch : ℕ → Exec (Unit {0})
unfolding has_sku
touch sku_id =
    modify (λ s. record s {
      touched = if has_sku sku_id s.touched then s.touched else sku_id ∷ s.touched;
    })

abbrev pub version_retries : ℕ
version_retries = 5

-- One round of the loop after its `_apply_once`; `again` is the rest of the loop.
unfoldable pub after_once :
    (Inventory → Exec Inventory) → Note → ℤ → Status × Option Inventory → Exec Inventory
after_once again note before_qty (applied, some fresh) = do
  append_flow fresh note before_qty (getattr fresh note.before_name)
  touch fresh.sku_id
  pure fresh
after_once again note before_qty (conflict, some fresh) = again fresh
after_once again note before_qty (insufficient, fresh) = raise inventory_insufficient
after_once again note before_qty (applied, none) = raise not_found
after_once again note before_qty (conflict, none) = raise not_found
after_once again note before_qty (missing, fresh) = raise not_found

unfoldable pub commit_loop : ℕ → Inventory → Note → Delta → Exec Inventory
commit_loop zero current note d = raise inventory_conflict
commit_loop (suc rounds) current note d = do
  r ← apply_once current d
  after_once (λ fresh. commit_loop rounds fresh note d) note (getattr current note.before_name) r

unfoldable pub commit_change : Inventory → Note → Delta → Exec Inventory
unfolding commit_loop
commit_change row note d = commit_loop version_retries row note d
