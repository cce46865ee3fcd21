-- ===== src/Ledger/Change/Decided.antt =====
-- What a `_commit_change` leaves in the tables, where nobody interferes.
use cross_pilot.Ledger.Change.Commit.{noted, committed, commit_change-committed}
use mathlib.Core.Path.{subst}
use cross_pilot.Ledger.Change.Rows.{update_row_hit, id-find_row}
use cross_pilot.Ledger.Change.{
  Bucket, available, occupied, in_transit, defective, getattr, Note, flow_of, append_flow, touch,
  commit_change,
}
use cross_pilot.Ledger.Exec.{inventory_insufficient, Session}
use cross_pilot.Ledger.Tables.{Inventory, InventoryFlow, Delta, fits, changed, update_row, find_row}
use cross_pilot.Prelude.Int.{ℤ, pos, ◌+ℤ◌, ◌≤ℤ◌}
use cross_pilot.Prelude.Result.{ok, err}
use cross_pilot.Prelude.{
  ◌==◌, if◌then◌else◌, Bool-cases, ℕ, ◌+◌, ◌≡◌, refl, sym, ◌↔◌, ◌⊎◌, inl, inr, true, some, List, [],
  ◌∷◌, arith,
}

-- What the change adds to a bucket.
abbrev pub added : Delta → Bucket → ℤ
added d available = d.available
added d occupied = d.occupied
added d in_transit = d.in_transit
added d defective = d.defective

-- The numbers that the change leads to keep the CHECK constraints.
abbrev pub CanChange : Inventory → Delta → Type 0
CanChange row d =
    (pos 0 ≤ℤ row.available +ℤ d.available)
    × (pos 0 ≤ℤ row.occupied +ℤ d.occupied)
    × (pos 0 ≤ℤ row.defective +ℤ d.defective)
    × (pos 0 ≤ℤ row.in_transit +ℤ d.in_transit)
    × (row.occupied +ℤ d.occupied ≤ℤ row.available +ℤ d.available)

fits_iff : (row : Inventory) (d : Delta) → (fits row d ≡ true) ↔ CanChange row d
unfolding fits
fits_iff row d = ground arith

-- The rows with another id.
unfoldable pub other_rows : ℕ → List Inventory → List Inventory
other_rows id [] = []
other_rows id (row ∷ rows) =
    let rest = other_rows id rows in if row.id == id then rest else row ∷ rest

other_rows-update_row :
    (id version : ℕ) (d : Delta) (rows : List Inventory)
    → other_rows id (update_row id version d rows).0 ≡ other_rows id rows
unfolding other_rows update_row changed
other_rows-update_row id version d [] = refl
other_rows-update_row id version d (row ∷ rows) =
    ground (arith, other_rows-update_row id version d rows)

-- The row is the old one with the deltas added and its version one further, no other row has
-- changed, and one flow was written, with the numbers before and after in the bucket of the note.
pub record Changed (row : Inventory) (note : Note) (d : Delta) (s : Session) (fresh : Inventory)
    (s' : Session) : Type 0 where
  pub stored : find_row row.id s'.inventories ≡ some fresh
  pub others : other_rows row.id s'.inventories ≡ other_rows row.id s.inventories
  pub version : fresh.version ≡ row.version + 1
  pub numbers :
      (fresh.available ≡ row.available +ℤ d.available)
      × (fresh.occupied ≡ row.occupied +ℤ d.occupied)
      × (fresh.in_transit ≡ row.in_transit +ℤ d.in_transit)
      × (fresh.defective ≡ row.defective +ℤ d.defective)
      × (fresh.safe_stock ≡ row.safe_stock)
  pub flow :
      (f : InventoryFlow) × (s'.flows ≡ f ∷ s.flows)
      × (f.inventory_id ≡ row.id)
      × (f.flow_type ≡ note.flow_type)
      × (f.quantity ≡ note.quantity)
      × (f.before_qty ≡ getattr row note.before_name)
      × (f.after_qty ≡ getattr row note.before_name +ℤ added d note.before_name)

getattr-changed :
    (row : Inventory) (d : Delta) (b : Bucket)
    → getattr (changed row d) b ≡ getattr row b +ℤ added d b
unfolding changed
getattr-changed row d available = refl
getattr-changed row d occupied = refl
getattr-changed row d in_transit = refl
getattr-changed row d defective = refl

noted-Changed :
    (row : Inventory) (note : Note) (d : Delta) (s : Session)
    → find_row row.id s.inventories ≡ some row
    → fits row d ≡ true
    → Changed row note d s (changed row d) (noted row note d s)
unfolding noted touch append_flow flow_of
noted-Changed row note d s found fit = record {
  stored = (update_row_hit row.id d s.inventories row found fit).1;
  others = other_rows-update_row row.id row.version d s.inventories;
  version = unfold changed in refl;
  numbers = unfold changed in (refl, refl, refl, refl, refl);
  flow =
      unfold changed in
      (
        flow_of (changed row d) note (getattr row note.before_name)
            (getattr (changed row d) note.before_name),
        refl,
        refl,
        refl,
        refl,
        refl,
        getattr-changed row d note.before_name,
      );
}

-- The change took place, or could not: then the call raises and the session is as it was.
abbrev pub Decides : Inventory → Inventory → Note → Delta → Session → Type 0
Decides current row note d s =
    (CanChange row d
      × (fresh : Inventory) × (s' : Session) × (commit_change current note d s ≡ (ok fresh, s'))
      × Changed row note d s fresh s')
    ⊎ ((¬ CanChange row d) × (commit_change current note d s ≡ (err inventory_insufficient, s)))

-- With no interference one `_commit_change` decides, for a row that the session holds as it stands in
-- the table or at an older version: if the new numbers keep the CHECK constraints, the row has them,
-- its version is one further, no other row has changed, and one flow more tells the number before
-- and the number after; else the call raises `InventoryInsufficientError` and changes nothing. It is
-- never a conflict.
pub commit_change-Decides :
    (current row : Inventory) (note : Note) (d : Delta) (s : Session)
    → s.others ≡ []
    → find_row current.id s.inventories ≡ some row
    → (row.version ≡ current.version → current ≡ row)
    → Decides current row note d s
unfolding committed
commit_change-Decides current row note d s alone found loaded =
    let e = commit_change-committed current row note d s alone found loaded in
    elim (Bool-cases (fits row d)) [
      | inl fit ↦ inl (
        (fits_iff row d).0 fit,
        changed row d,
        noted row note d s,
        (rw fit at e),
        noted-Changed row note d s at_id fit,
      )
      | inr over ↦ inr ((λ can. cc (over, (fits_iff row d).1 can)), (rw over at e))
    ]
  where
    at_id : find_row row.id s.inventories ≡ some row
    at_id =
        subst (λ k. find_row k s.inventories ≡ some row)
          (sym (id-find_row current.id s.inventories row found)) found
