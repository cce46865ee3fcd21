-- ===== src/Sync/Cursor/Pages.antt =====
-- What the pull of the pages promises.
use mathlib.Core.Path.{subst}
use mathlib.Core.List.{append_assoc, append-nil}
use cross_pilot.Prelude.Int.{pos, ltb_ℤ}
use cross_pilot.Sync.Cursor.{
  is_set, Page, PullResult, after_next, after_page, pull_loop, seen_of, pull_order_pages,
}
use cross_pilot.Prelude.Result.{Result, ok, err}
use cross_pilot.Prelude.{
  Bool-cases, ℕ, zero, suc, ◌+◌, ◌≤◌, ◌≡◌, refl, sym, ap, ◌∙◌, inl, inr, Bool, true, false, Option,
  none, some, List, [], ◌∷◌, ◌++◌, arith,
}
use cross_pilot.Prelude.Text.{String, str_eq, mem_text}

module _ {Order Error : Type 0} (fetch : ℕ → Option String → Result Error (Page Order)) where
  abbrev items_then : (Option String → List Order) → Result Error (Page Order) → List Order
  items_then more (err e) = []
  items_then more (ok page) = page.items ++ more page.next_cursor

  -- The orders of `n` pages, each fetched with the cursor that the one before it named; `at` is the
  -- number of the first call.
  pub follow : ℕ → ℕ → Option String → List Order
  follow zero at cursor = []
  follow (suc n) at cursor = items_then (follow n (suc at)) (fetch at cursor)

  -- How a pull may end: an error, or no further page, or a cursor that came twice, or the limit on
  -- pages, and only then with a cursor from which the next pull goes on.
  pub record EndsWell (limit : ℕ) (r : PullResult Order Error) : Type 0 where
    pub few : r.pages ≤ limit
    pub completed : r.complete ≡ true → (r.error ≡ none) × (r.resume_cursor ≡ none)
    pub resumed :
        is_set r.resume_cursor ≡ true → (r.pages ≡ limit) × (r.error ≡ none) × (r.complete ≡ false)

  pub record Collects (limit at : ℕ) (collected : List Order) (cursor : Option String)
      (r : PullResult Order Error) : Type 0 where
    pub fetched : ℕ
    pub all_pages : r.pages ≡ at + fetched
    pub all_orders : r.orders ≡ collected ++ follow fetched at cursor
    pub ends : EndsWell limit r

  -- a pull that stops after the page that `fetch` gave
  stopped-Collects :
      (left at : ℕ) (collected : List Order) (cursor : Option String) (page : Page Order)
      (complete : Bool)
      → fetch at cursor ≡ ok page
      → Collects (at + suc left) at collected cursor (record {
        orders = collected ++ page.items;
        complete = complete;
        resume_cursor = none;
        pages = suc at;
        error = none;
      })
  unfolding follow
  stopped-Collects left at collected cursor page complete e = record {
    fetched = 1;
    all_pages = omega arith;
    all_orders = rw e (ap (λ l. collected ++ l) (sym (append-nil page.items)));
    ends = record {
      few = omega arith;
      completed = λ c. (refl, refl);
      resumed = λ c. absurd (cc c);
    };
  }

  went_on-Collects :
      (left at : ℕ) (collected : List Order) (cursor : Option String) (page : Page Order)
      (r : PullResult Order Error)
      → fetch at cursor ≡ ok page
      → Collects (suc at + left) (suc at) (collected ++ page.items) page.next_cursor r
      → Collects (at + suc left) at collected cursor r
  unfolding follow
  went_on-Collects left at collected cursor page r e h = record {
    fetched = suc h.fetched;
    all_pages = omega (arith, h.all_pages);
    all_orders = rw e (
        h.all_orders
        ∙ append_assoc collected page.items (follow h.fetched (suc at) page.next_cursor));
    ends = record {
      few = omega (arith, h.ends.few);
      completed = h.ends.completed;
      resumed = λ c. let (p, q, z) = h.ends.resumed c in (omega (arith, p), q, z);
    };
  }

  module _ (again : List Order → List String → Option String → PullResult Order Error) (left at : ℕ)
      (collected : List Order) (seen : List String) (cursor : Option String)
      (goes : (page : Page Order) (nxt : String)
        → Collects
            (suc at + left)
            (suc at)
            (collected ++ page.items)
            (some nxt)
            (again (collected ++ page.items) (nxt ∷ seen) (some nxt))) where
    next-Collects :
        (page : Page Order) (o : Option String)
        → fetch at cursor ≡ ok page
        → page.next_cursor ≡ o
        → Collects
            (at + suc left)
            at
            collected
            cursor
            (after_next again (suc at) (collected ++ page.items) seen o)
    next-Collects page none e n = stopped-Collects left at collected cursor page true e
    next-Collects page (some nxt) e n = elim (Bool-cases (str_eq nxt "")) [
      | inl blank ↦ rw blank (stopped-Collects left at collected cursor page true e)
      | inr named ↦ rw named (elim (Bool-cases (mem_text nxt seen)) [
        | inl twice ↦ rw twice (stopped-Collects left at collected cursor page false e)
        | inr new ↦
            rw new (went_on-Collects left at collected cursor page _ e (rw n (goes page nxt)))
      ])
    ]

    page-Collects :
        (r : Result Error (Page Order))
        → fetch at cursor ≡ r
        → Collects (at + suc left) at collected cursor (after_page again at collected seen r)
    page-Collects (err x) e = record {
      fetched = 0;
      all_pages = omega arith;
      all_orders = unfold follow in sym (append-nil collected);
      ends = record {
        few = omega arith;
        completed = λ c. absurd (cc c);
        resumed = λ c. absurd (cc c);
      };
    }
    page-Collects (ok page) e = next-Collects page page.next_cursor e refl

  loop-Collects :
      (left at : ℕ) (collected : List Order) (seen : List String) (cursor : Option String)
      → Collects (at + left) at collected cursor (pull_loop fetch left at collected seen cursor)
  unfolding pull_loop follow
  loop-Collects zero at collected seen cursor = record {
    fetched = 0;
    all_pages = omega arith;
    all_orders = sym (append-nil collected);
    ends = record {
      few = omega arith;
      completed = λ e. absurd (cc e);
      resumed = λ e. (omega arith, refl, refl);
    };
  }
  loop-Collects (suc left) at collected seen cursor =
      page-Collects (λ orders seen' cursor'. pull_loop fetch left (suc at) orders seen' cursor')
        left at collected seen cursor
        (λ page nxt. loop-Collects left (suc at) (collected ++ page.items) (nxt ∷ seen) (some nxt))
        (fetch at cursor) refl

  -- A pull with a positive limit returns, after at most that many pages, exactly the orders of the
  -- pages it fetched, in their order. It names a cursor to go on from only when it stopped at the
  -- limit, and it counts as complete only without an error.
  pub pull-Collects :
      (start_cursor : Option String) (n : ℕ)
      → 1 ≤ n
      → (r : PullResult Order Error) × (pull_order_pages fetch start_cursor (pos n) ≡ ok r)
        × (r.orders ≡ follow r.pages 0 start_cursor)
        × EndsWell n r
  unfolding pull_order_pages
  pull-Collects start_cursor n h =
      let c = loop-Collects n 0 [] (seen_of start_cursor) start_cursor in
      let fine : ltb_ℤ (pos n) (pos 1) ≡ false = ground (arith, h) in
      let k : (pull_loop fetch n 0 [] (seen_of start_cursor) start_cursor).pages ≡ c.fetched =
        omega (arith, c.all_pages) in
      (
        pull_loop fetch n 0 [] (seen_of start_cursor) start_cursor,
        (rw fine refl),
        (rw k c.all_orders),
        subst (λ m. EndsWell m (pull_loop fetch n 0 [] (seen_of start_cursor) start_cursor))
            (omega arith) c.ends,
      )
