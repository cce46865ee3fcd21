-- ===== src/Ledger/Change/Commit.antt =====
-- What `_commit_change` does, by itself and against other transactions.
use mathlib.Core.Path.{subst}
use native.Mathlib.Decide.{ℕ_discrete}
use cross_pilot.Prelude.Result.{Result, ok, err}
use cross_pilot.Prelude.{
  ◌==◌, if◌then◌else◌, Bool-cases, ℕ, suc, ◌≡◌, refl, sym, ap, ◌≢◌, inl, inr, true, false, none,
  some, [], arith,
}
use cross_pilot.Ledger.Tables.{Inventory, Delta, fits, changed, update_row, find_row}
use cross_pilot.Ledger.Exec.{LedgerError, inventory_insufficient, Session, ◌>>=◌}
use cross_pilot.Ledger.Change.{
  applied, conflict, insufficient, interfere, why_not, update_once, apply_change, apply_once,
  getattr, Note, append_flow, touch, after_once, commit_loop, commit_change,
}
use cross_pilot.Ledger.Change.Rows.{update_row_hit, update_row_miss, id-find_row}

-- The session after a committed change of `row`: the row is changed, one flow tells the numbers
-- before and after, and the SKU is marked.
unfoldable pub noted : Inventory → Note → Delta → Session → Session
noted row note d s =
    let fresh = changed row d in
    let s' = record s { inventories = (update_row row.id row.version d s.inventories).0 } in
    (touch fresh.sku_id
      (append_flow fresh note (getattr row note.before_name) (getattr fresh note.before_name)
        s').1).1

unfoldable pub committed :
    Inventory → Note → Delta → Session → Result LedgerError Inventory × Session
committed row note d s =
    if fits row d then (ok (changed row d), noted row note d s) else (err inventory_insufficient, s)

interfere_alone : (s : Session) → s.others ≡ [] → interfere s ≡ s
unfolding interfere
interfere_alone s h = rw h refl

-- One attempt with no interference, on a row that is as it was loaded.
apply_once-fits :
    (row : Inventory) (d : Delta) (s : Session)
    → s.others ≡ []
    → find_row row.id s.inventories ≡ some row
    → fits row d ≡ true
    → apply_once row d s ≡ (
      ok (applied, some (changed row d)),
      record s { inventories = (update_row row.id row.version d s.inventories).0 },
    )
unfolding apply_once apply_change update_once
apply_once-fits row d s alone found fit =
    let (hit, fresh) = update_row_hit row.id d s.inventories row found fit in
    rw (interfere_alone s alone, hit, fresh)

same_version : (n : ℕ) → (n == n) ≡ true
same_version n = ground arith

apply_once_short :
    (row : Inventory) (d : Delta) (s : Session)
    → s.others ≡ []
    → find_row row.id s.inventories ≡ some row
    → fits row d ≡ false
    → apply_once row d s ≡ (ok (insufficient, none), s)
unfolding apply_once apply_change update_once why_not
apply_once_short row d s alone found over = rw (
  interfere_alone s alone,
  update_row_miss row.id row.version d s.inventories row found (ground arith),
  found,
  same_version,
)

pub commit_loop_fresh :
    (n : ℕ) (row : Inventory) (note : Note) (d : Delta) (s : Session)
    → s.others ≡ []
    → find_row row.id s.inventories ≡ some row
    → commit_loop (suc n) row note d s ≡ committed row note d s
unfolding commit_loop committed noted ◌>>=◌ after_once append_flow touch
commit_loop_fresh n row note d s alone found = elim (Bool-cases (fits row d)) [
  | inl fit ↦ rw (apply_once-fits row d s alone found fit, fit) refl
  | inr over ↦ rw (apply_once_short row d s alone found over, over) refl
]

apply_once_stale :
    (current row : Inventory) (d : Delta) (s : Session)
    → s.others ≡ []
    → find_row current.id s.inventories ≡ some row
    → row.version ≢ current.version
    → apply_once current d s ≡ (ok (conflict, some row), s)
unfolding apply_once apply_change update_once why_not
apply_once_stale current row d s alone found stale =
    let differ : (row.version == current.version) ≡ false = ground arith in
    rw (
      interfere_alone s alone,
      update_row_miss current.id current.version d s.inventories row found (ground arith),
      found,
      differ,
      found,
    )

-- With no interference one call is decided by the row as it stands, which the session holds fresh or
-- stale.
pub commit_change-committed :
    (current row : Inventory) (note : Note) (d : Delta) (s : Session)
    → s.others ≡ []
    → find_row current.id s.inventories ≡ some row
    → (row.version ≡ current.version → current ≡ row)
    → commit_change current note d s ≡ committed row note d s
unfolding commit_change
commit_change-committed current row note d s alone found loaded =
    elim (ℕ_discrete row.version current.version) [
      | yes e ↦
          let same = loaded e in
          rw same (commit_loop_fresh 4 row note d s alone (rw (ap (λ r. r.id) same) at found))
      | no stale ↦ retry stale
    ]
  where
    at_id : find_row row.id s.inventories ≡ some row
    at_id =
        subst (λ k. find_row k s.inventories ≡ some row)
          (sym (id-find_row current.id s.inventories row found)) found

    retry : row.version ≢ current.version → commit_loop 5 current note d s ≡ committed row note d s
    retry stale =
        unfold commit_loop ◌>>=◌ after_once in
        rw (apply_once_stale current row d s alone found stale)
          (commit_loop_fresh 3 row note d s alone at_id)
