-- ===== src/Ledger/Change/Rows.antt =====
-- Facts on the rows of a table: soundness, and what an UPDATE changes.
use cross_pilot.Prelude.Int.{pos, ◌≤ℤ◌}
use cross_pilot.Prelude.{
  ◌==◌, All, ℕ, ◌≡◌, refl, ◌≢◌, true, false, ◌&&◌, none, some, List, [], ◌∷◌, ◌++◌, arith,
}
use cross_pilot.Ledger.Tables.{Inventory, Delta, fits, changed, update_row, find_row, get_pair}
use cross_pilot.Ledger.Exec.{Write}
use cross_pilot.Ledger.Change.{write_all}

-- The CHECK constraints of the table: nothing is negative, and no more is reserved than there is. That
-- the available goods are not negative follows.
pub record IsSound (row : Inventory) : Type 0 where
  pub reserved : pos 0 ≤ℤ row.occupied
  pub covered : row.occupied ≤ℤ row.available
  pub transit : pos 0 ≤ℤ row.in_transit
  pub broken : pos 0 ≤ℤ row.defective
  pub safe : pos 0 ≤ℤ row.safe_stock

pub changed-IsSound :
    (row : Inventory) (d : Delta) → IsSound row → fits row d ≡ true → IsSound (changed row d)
unfolding fits changed
changed-IsSound row d sound h = ground (arith, sound.safe)

-- The unique index of the table: no two rows have the same SKU and warehouse.
abbrev pub PairsApart : List Inventory → Type 0
PairsApart [] = Unit
PairsApart (row ∷ rows) = (get_pair row.sku_id row.warehouse_id rows ≡ none) × PairsApart rows

get_pair-update_row :
    (sku_id warehouse_id id version : ℕ) (d : Delta) (rows : List Inventory)
    → get_pair sku_id warehouse_id rows ≡ none
    → get_pair sku_id warehouse_id (update_row id version d rows).0 ≡ none
unfolding get_pair update_row changed
get_pair-update_row sku_id warehouse_id id version d [] h = refl
get_pair-update_row sku_id warehouse_id id version d (row ∷ rows) h =
    ground (arith, get_pair-update_row sku_id warehouse_id id version d rows)

pub update_row-PairsApart :
    (id version : ℕ) (d : Delta) (rows : List Inventory)
    → PairsApart rows
    → PairsApart (update_row id version d rows).0
unfolding update_row changed
update_row-PairsApart id version d [] h = tt
update_row-PairsApart id version d (row ∷ rows) h = ground (
  arith,
  update_row-PairsApart id version d rows h.1,
  get_pair-update_row row.sku_id row.warehouse_id id version d rows h.0,
)

pub write_all-PairsApart :
    (ws : List Write) (rows : List Inventory) → PairsApart rows → PairsApart (write_all ws rows)
unfolding write_all
write_all-PairsApart [] rows h = h
write_all-PairsApart (w ∷ ws) rows h =
    write_all-PairsApart ws (update_row w.id w.version w.delta rows).0
      (update_row-PairsApart w.id w.version w.delta rows h)

get_pair-append :
    (sku_id warehouse_id : ℕ) (rows : List Inventory) (row : Inventory)
    → get_pair sku_id warehouse_id rows ≡ none
    → (row.sku_id == sku_id && row.warehouse_id == warehouse_id) ≡ false
    → get_pair sku_id warehouse_id (rows ++ row ∷ []) ≡ none
unfolding get_pair
get_pair-append sku_id warehouse_id [] row h ne = rw ne refl
get_pair-append sku_id warehouse_id (r ∷ rows) row h ne =
    ground (arith, get_pair-append sku_id warehouse_id rows row)

-- A row whose SKU and warehouse no row has may be inserted.
pub append-PairsApart :
    (rows : List Inventory) (row : Inventory)
    → PairsApart rows
    → get_pair row.sku_id row.warehouse_id rows ≡ none
    → PairsApart (rows ++ row ∷ [])
unfolding get_pair
append-PairsApart [] row h new = (refl, tt)
append-PairsApart (r ∷ rows) row h new =
    let differ : (row.sku_id == r.sku_id && row.warehouse_id == r.warehouse_id) ≡ false =
      ground arith in
    let rest : get_pair row.sku_id row.warehouse_id rows ≡ none = ground arith in
    (
      get_pair-append r.sku_id r.warehouse_id rows row h.0 differ,
      append-PairsApart rows row h.1 rest,
    )

pub update_row-IsSound :
    (id version : ℕ) (d : Delta) (rows : List Inventory)
    → All IsSound rows
    → All IsSound (update_row id version d rows).0
unfolding update_row
update_row-IsSound id version d [] h = tt
update_row-IsSound id version d (row ∷ rows) h =
    ground (arith, update_row-IsSound id version d rows h.1, changed-IsSound row d h.0)

pub write_all-IsSound :
    (ws : List Write) (rows : List Inventory) → All IsSound rows → All IsSound (write_all ws rows)
unfolding write_all
write_all-IsSound [] rows h = h
write_all-IsSound (w ∷ ws) rows h =
    write_all-IsSound ws (update_row w.id w.version w.delta rows).0
      (update_row-IsSound w.id w.version w.delta rows h)

-- An UPDATE at the row's version whose new numbers fit hits the row, and changes it.
pub update_row_hit :
    (id : ℕ) (d : Delta) (rows : List Inventory) (row : Inventory)
    → find_row id rows ≡ some row
    → fits row d ≡ true
    → ((update_row id row.version d rows).1 ≡ true)
      × (find_row id (update_row id row.version d rows).0 ≡ some (changed row d))
unfolding update_row find_row changed
update_row_hit id d [] row f t = cc
update_row_hit id d (r ∷ rows) row f t = ground (arith, update_row_hit id d rows row)

-- At another version, or where the new numbers do not fit, it changes nothing.
pub update_row_miss :
    (id version : ℕ) (d : Delta) (rows : List Inventory) (row : Inventory)
    → find_row id rows ≡ some row
    → (row.version == version && fits row d) ≡ false
    → update_row id version d rows ≡ (rows, false)
unfolding update_row find_row
update_row_miss id version d [] row f t = cc
update_row_miss id version d (r ∷ rows) row f t =
    ground (arith, update_row_miss id version d rows row)

-- An UPDATE leaves every row of another id alone.
pub update_row_ne :
    (id version : ℕ) (d : Delta) (j : ℕ) (rows : List Inventory)
    → j ≢ id
    → find_row j (update_row id version d rows).0 ≡ find_row j rows
unfolding update_row find_row changed
update_row_ne id version d j [] h = refl
update_row_ne id version d j (r ∷ rows) h = ground (arith, update_row_ne id version d j rows h)

-- An UPDATE that does not find its row changes nothing.
pub update_row_missing :
    (id version : ℕ) (d : Delta) (rows : List Inventory)
    → find_row id rows ≡ none
    → update_row id version d rows ≡ (rows, false)
unfolding update_row find_row
update_row_missing id version d [] h = refl
update_row_missing id version d (r ∷ rows) h = ground (arith, update_row_missing id version d rows)

pub id-find_row :
    (id : ℕ) (rows : List Inventory) (row : Inventory) → find_row id rows ≡ some row → row.id ≡ id
unfolding find_row
id-find_row id [] row h = cc
id-find_row id (r ∷ rows) row h = ground (arith, id-find_row id rows row)
