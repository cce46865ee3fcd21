-- ===== src/Ledger/Change/Contention.antt =====
-- What it takes to fail a `_commit_change` with a conflict: other transactions move the row before each
-- of its UPDATEs.
use mathlib.Core.Path.{subst}
use cross_pilot.Prelude.Result.{Result, ok, err}
use cross_pilot.Prelude.Int.{ℤ}
use cross_pilot.Prelude.{
  ◌==◌, Bool-cases, ℕ, zero, suc, ◌≡◌, refl, sym, ap, ◌∙◌, ◌≢◌, inl, inr, Option, none, some, arith,
}
use cross_pilot.Ledger.Tables.{Inventory, Delta, update_row, find_row}
use cross_pilot.Ledger.Exec.{LedgerError, inventory_conflict, Session, continue, ◌>>=◌}
use cross_pilot.Ledger.Change.{
  Status, applied, conflict, insufficient, missing, interfere, why_not, update_once, apply_change,
  fresh_row, apply_once, getattr, Note, append_flow, touch, after_once, commit_loop, commit_change,
}
use cross_pilot.Ledger.Change.Rows.{id-find_row}

-- The session holds the row as the table has it.
abbrev IsFresh : Inventory → Session → Type 0
IsFresh row s = find_row row.id s.inventories ≡ some row

abbrev pub version_of : Option Inventory → Option ℕ
version_of none = none
version_of (some row) = some row.version

-- The version of the row with that id.
abbrev pub version_at : ℕ → Session → Option ℕ
version_at id s = version_of (find_row id s.inventories)

-- Before each of so many UPDATEs, what other transactions commit changes the version of the row.
abbrev pub Contended : ℕ → ℕ → Session → Type 0
Contended zero id s = Unit
Contended (suc rounds) id s =
    (version_at id (interfere s) ≢ version_at id s) × Contended rounds id (interfere s)

-- What a round leaves when it goes on: the row as the table has it, at another version than before,
-- and of the session nothing but what the others committed.
record GoesOn (row : Inventory) (s s' : Session) (fresh : Inventory) : Type 0 where
  loaded : find_row row.id s'.inventories ≡ some fresh
  moved : fresh.version ≢ row.version
  only : s' ≡ interfere s

abbrev EndsRound :
    Inventory → Session → Result LedgerError (Status × Option Inventory) × Session → Type 0
EndsRound row s (ok (conflict, some fresh), s') = GoesOn row s s' fresh
EndsRound row s (err e, s') = ⊥
EndsRound row s (r, s') = Unit

why_not-EndsRound :
    (row : Inventory) (s s' : Session) (o : Option Inventory)
    → find_row row.id s'.inventories ≡ o
    → s' ≡ interfere s
    → EndsRound row s
        (ok (why_not o row.version, fresh_row (why_not o row.version) row.id s'.inventories), s')
unfolding why_not
why_not-EndsRound row s s' none e l = tt
why_not-EndsRound row s s' (some fresh) e l = elim (Bool-cases (fresh.version == row.version)) [
  | inl current ↦ rw current (unfold fresh_row in tt)
  | inr stale ↦ rw stale (
      unfold fresh_row in
      rw e (record { loaded = e; moved = λ h. ground (arith, stale, h); only = l }))
]

apply_once-EndsRound :
    (row : Inventory) (d : Delta) (s : Session) → EndsRound row s (apply_once row d s)
unfolding apply_once apply_change update_once
apply_once-EndsRound row d s =
    let s' = interfere s in
    elim (Bool-cases (update_row row.id row.version d s'.inventories).1) [
      | inl hit ↦ rw hit tt
      | inr miss ↦ rw miss (why_not-EndsRound row s s' (find_row row.id s'.inventories) refl refl)
    ]

module _ (note : Note) (d : Delta) where
  -- One round, from what its `_apply_once` gave.
  round-Contended :
      (n : ℕ) (row : Inventory) (s : Session) (b : ℤ)
      (r : Result LedgerError (Status × Option Inventory)) (s' : Session)
      → ((fresh : Inventory)
          → IsFresh fresh s'
          → (commit_loop n fresh note d s').0 ≡ err inventory_conflict
          → Contended n fresh.id s')
      → IsFresh row s
      → EndsRound row s (r, s')
      → (continue r (after_once (λ fresh. commit_loop n fresh note d) note b) s').0
        ≡ err inventory_conflict
      → Contended (suc n) row.id s
  unfolding after_once ◌>>=◌ append_flow touch
  round-Contended n row s b (ok (applied, some fresh)) s' ih f g h = absurd (cc h)
  round-Contended n row s b (ok (applied, none)) s' ih f g h = absurd (cc h)
  round-Contended n row s b (ok (conflict, some fresh)) s' ih f g h =
      let same : fresh.id ≡ row.id = id-find_row row.id s'.inventories fresh g.loaded in
      let at : IsFresh fresh s' =
        subst (λ k. find_row k s'.inventories ≡ some fresh) (sym same) g.loaded in
      (
        (λ e.
            let e' : some fresh.version ≡ some row.version =
              ap version_of (sym g.loaded) ∙ ap (version_at row.id) g.only ∙ e ∙ ap version_of f in
            g.moved (cc e')),
        subst (λ s''. Contended n row.id s'') g.only
            (subst (λ k. Contended n k s') same (ih fresh at h)),
      )
  round-Contended n row s b (ok (conflict, none)) s' ih f g h = absurd (cc h)
  round-Contended n row s b (ok (insufficient, o)) s' ih f g h = absurd (cc h)
  round-Contended n row s b (ok (missing, o)) s' ih f g h = absurd (cc h)
  round-Contended n row s b (err e) s' ih f g h = absurd g

  loop-Contended :
      (n : ℕ) (row : Inventory) (s : Session)
      → IsFresh row s
      → (commit_loop n row note d s).0 ≡ err inventory_conflict
      → Contended n row.id s
  loop-Contended zero row s f h = tt
  loop-Contended (suc n) row s f h =
      let r = apply_once row d s in
      round-Contended n row s (getattr row note.before_name) r.0 r.1
        (λ fresh. loop-Contended n fresh r.1) f (apply_once-EndsRound row d s)
        (unfold commit_loop ◌>>=◌ in h)

-- On a row that the session holds as the table has it, a `_commit_change` raises
-- `InventoryConflictError` only if, before each of its five UPDATEs, what other transactions commit
-- changes the version of the row.
pub commit_change-Contended :
    (row : Inventory) (note : Note) (d : Delta) (s : Session)
    → find_row row.id s.inventories ≡ some row
    → (commit_change row note d s).0 ≡ err inventory_conflict
    → Contended 5 row.id s
unfolding commit_change
commit_change-Contended row note d s f h = loop-Contended note d 5 row s f h
