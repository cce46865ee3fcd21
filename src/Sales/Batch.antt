-- ===== src/Sales/Batch.antt =====
-- A batch of orders that are shipped.
use cross_pilot.Prelude.Text.{String}
use cross_pilot.Prelude.Result.{Result, ok, err}
use cross_pilot.Prelude.{
  ◌==◌, Bool-cases, ℕ, ◌≡◌, refl, ap, ◌∙◌, inl, inr, true, false, not, ◌&&◌, List, [], ◌∷◌, map,
  arith,
}
use cross_pilot.Ledger.Exec.{LedgerError, Session, pure, continue, ◌>>=◌}
use cross_pilot.Ledger.Change.{has_sku}
use cross_pilot.Sales.Invariant.{OrdersOk, same_self, same_id}
use cross_pilot.Sales.Ship.{ShipLine, ShipTools, dedupe_from, dedupe_ids, ship_one, run_ship_batch}
use cross_pilot.Sales.Attempts.{Attempted, ship_one-Attempted}

-- A line for each order, in their order.
abbrev pub Batched : List ℕ → Result LedgerError (List ShipLine) × Session → Type 0
Batched order_ids (ok lines, after) =
    (map (λ line. line.order_id) lines ≡ order_ids) × OrdersOk after
Batched order_ids (err e, after) = ⊥

ends-Batched :
    (line : ShipLine) (order_ids : List ℕ) (p : Result LedgerError (List ShipLine) × Session)
    → Batched order_ids p
    → Batched (line.order_id ∷ order_ids) (continue p.0 (λ lines. pure (line ∷ lines)) p.1)
ends-Batched line order_ids (ok lines, after) h = (ap (λ ids. line.order_id ∷ ids) h.0, h.1)
ends-Batched line order_ids (err e, after) h = absurd h

starts-Batched :
    (tools : ShipTools) (carrier : String) (order_id : ℕ) (order_ids : List ℕ) (s : Session)
    (p : Result LedgerError ShipLine × Session)
    → Attempted order_id s p
    → ((s' : Session) → OrdersOk s' → Batched order_ids (run_ship_batch tools carrier order_ids s'))
    → Batched (order_id ∷ order_ids) (
        continue p.0
          (λ line. run_ship_batch tools carrier order_ids >>= λ lines. pure (line ∷ lines))
          p.1)
unfolding ◌>>=◌
starts-Batched tools carrier order_id order_ids s (ok line, s') h k =
    rw (← h.0) (ends-Batched line order_ids (run_ship_batch tools carrier order_ids s') (k s' h.1))
starts-Batched tools carrier order_id order_ids s (err e, s') h k = absurd h

-- A batch returns a line for each of its orders, in their order, whichever of them fail, and leaves
-- the orders' tables as they should be.
pub run_ship_batch-Batched :
    (tools : ShipTools) (carrier : String) (order_ids : List ℕ) (s : Session)
    → OrdersOk s
    → Batched order_ids (run_ship_batch tools carrier order_ids s)
unfolding run_ship_batch ◌>>=◌
run_ship_batch-Batched tools carrier [] s h = (refl, h)
run_ship_batch-Batched tools carrier (order_id ∷ order_ids) s h =
    starts-Batched tools carrier order_id order_ids s (ship_one tools carrier order_id s)
      (ship_one-Attempted tools carrier order_id s h)
      (λ s' h'. run_ship_batch-Batched tools carrier order_ids s' h')

-- No id stands in a list twice.
abbrev pub IsApart : List ℕ → Type 0
IsApart [] = Unit
IsApart (id ∷ ids) = (has_sku id ids ≡ false) × IsApart ids

has_same : (x id : ℕ) (seen : List ℕ) → (x == id) ≡ true → has_sku x seen ≡ has_sku id seen
has_same x id seen e = ap (λ n. has_sku n seen) (same_id x id e)

has-dedupe_from :
    (id : ℕ) (seen ids : List ℕ)
    → has_sku id (dedupe_from seen ids) ≡ (has_sku id ids && not (has_sku id seen))
unfolding has_sku dedupe_from
has-dedupe_from id seen [] = refl
has-dedupe_from id seen (x ∷ ids) = elim (Bool-cases (x == id)) [
  | inl e ↦
      let same = has_same x id seen e in
      ground (arith, e, same, has-dedupe_from id seen ids, has-dedupe_from id (x ∷ seen) ids)
  | inr e ↦ ground (arith, e, has-dedupe_from id seen ids, has-dedupe_from id (x ∷ seen) ids)
]

dedupe_from-IsApart : (seen ids : List ℕ) → IsApart (dedupe_from seen ids)
unfolding dedupe_from
dedupe_from-IsApart seen [] = tt
dedupe_from-IsApart seen (x ∷ ids) = elim (Bool-cases (has_sku x seen)) [
  | inl old ↦ rw old (dedupe_from-IsApart seen ids)
  | inr new ↦ rw new (
    ground (arith, has-dedupe_from x (x ∷ seen) ids, same_self x),
    dedupe_from-IsApart (x ∷ seen) ids,
  )
]

-- Without its repetitions a list has the same ids, each once.
pub dedupe_ids-IsApart :
    (ids : List ℕ)
    → IsApart (dedupe_ids ids) × ((id : ℕ) → has_sku id (dedupe_ids ids) ≡ has_sku id ids)
unfolding dedupe_ids
dedupe_ids-IsApart ids =
    (dedupe_from-IsApart [] ids, λ id. has-dedupe_from id [] ids ∙ ground arith)
