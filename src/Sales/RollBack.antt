-- ===== src/Sales/RollBack.antt =====
-- What a rolled back savepoint leaves.
use mathlib.Core.Path.{subst}
use cross_pilot.Prelude.{length, ℕ, zero, suc, ◌-◌, ◌≡◌, refl, sym, ap, ◌∙◌, List, [], ◌∷◌}
use cross_pilot.Ledger.Exec.{Write, Session}
use cross_pilot.Ledger.Change.{interfere_with, interfere}
use cross_pilot.Sales.Frame.{SameOrders, SameOrders-refl, same_as}
use cross_pilot.Sales.Ship.{catch_up, roll_back}

-- Nothing of the orders, of the holds and of the history of the stock has changed, and its rows only
-- by what other transactions committed.
pub record Unchanged (before after : Session) : Type 0 where
  pub same : SameOrders before after
  pub flows : after.flows ≡ before.flows
  pub holds : after.holds ≡ before.holds
  pub commits : ℕ
  pub rows : after.inventories ≡ (catch_up commits before).inventories

pub Unchanged-refl : (s : Session) → Unchanged s s
Unchanged-refl s = record {
  same = SameOrders-refl s;
  flows = refl;
  holds = refl;
  commits = 0;
  rows = unfold catch_up in refl;
}

-- What an interference leaves alone, and what it depends on.
interfere-same :
    (s : Session)
    → (SameOrders s (interfere s))
      × ((interfere s).flows ≡ s.flows)
      × ((interfere s).holds ≡ s.holds)
unfolding interfere
interfere-same s = go s.others
  where
    go :
        (o : List (List Write))
        → (SameOrders s (interfere_with o s))
          × ((interfere_with o s).flows ≡ s.flows)
          × ((interfere_with o s).holds ≡ s.holds)
    go [] = (SameOrders-refl s, refl, refl)
    go (ws ∷ rest) =
        (record { orders = refl; logs = refl; items = refl; next_id = refl }, refl, refl)

interfere_queue :
    (s : Session) (q : List ℕ)
    → interfere (record s { queue = q }) ≡ record (interfere s) { queue = q }
unfolding interfere
interfere_queue s q = go s.others
  where
    go :
        (o : List (List Write))
        → interfere_with o (record s { queue = q }) ≡ record (interfere_with o s) { queue = q }
    go [] = refl
    go (ws ∷ rest) = refl

catch_up_queue :
    (n : ℕ) (s : Session) (q : List ℕ)
    → catch_up n (record s { queue = q }) ≡ record (catch_up n s) { queue = q }
unfolding catch_up
catch_up_queue zero s q = refl
catch_up_queue (suc n) s q =
    ap (catch_up n) (interfere_queue s q) ∙ catch_up_queue n (interfere s) q

catch_up-same :
    (n : ℕ) (s : Session)
    → (SameOrders s (catch_up n s))
      × ((catch_up n s).flows ≡ s.flows)
      × ((catch_up n s).holds ≡ s.holds)
unfolding catch_up
catch_up-same zero s = (SameOrders-refl s, refl, refl)
catch_up-same (suc n) s =
    let (same, flows, holds) = interfere-same s in
    let (same', flows', holds') = catch_up-same n (interfere s) in
    (same_as s (interfere s) (catch_up n (interfere s)) same same', flows' ∙ flows, holds' ∙ holds)

pub roll_back-Unchanged : (s s' : Session) → Unchanged s (roll_back s s')
unfolding roll_back
roll_back-Unchanged s s' =
    let n = length s.others - length s'.others in
    let (same, flows, holds) = catch_up-same n s in
    subst (λ t. Unchanged s t) (sym (catch_up_queue n s s'.queue))
      (record {
        same = record {
          orders = same.orders;
          logs = same.logs;
          items = same.items;
          next_id = same.next_id;
        };
        flows = flows;
        holds = holds;
        commits = n;
        rows = refl;
      })
