-- ===== src/Sync/Cursor.antt =====
-- The cursor of incremental order fetching: backend/app/sync_engine/cursor.py.
pub mod Laws
pub mod Pages
use cross_pilot.Prelude.Result.{Result, ok, err}
use cross_pilot.Prelude.Text.{String, str_eq, mem_text}
use cross_pilot.Prelude.Int.{ℤ, pos, pos_part, ◌+ℤ◌, ◌-ℤ◌, ltb_ℤ, leb_ℤ}
use cross_pilot.Prelude.{
  ◌==◌, if◌then◌else◌, ℕ, zero, suc, Bool, true, false, not, ◌||◌, Option, none, some, List, [],
  ◌∷◌, ◌++◌,
}

abbrev pub one_second : ℤ
one_second = pos 1_000_000

abbrev pub since_of : Option ℤ → ℤ → ℤ → ℤ → ℤ
since_of none until overlap initial_lookback = until -ℤ initial_lookback
since_of (some cursor_at) until overlap initial_lookback = cursor_at -ℤ overlap

-- `since`, `until` from the high-water mark, the time, the overlap and the first look back
unfoldable pub order_sync_window : Option ℤ → ℤ → ℤ → ℤ → ℤ × ℤ
order_sync_window cursor_at now overlap initial_lookback =
    let since = since_of cursor_at now overlap initial_lookback in
    if leb_ℤ now since
    then (now -ℤ (if ltb_ℤ (pos 0) overlap then overlap else one_second), now)
    else (since, now)

-- A text that Python takes for true.
abbrev pub is_set : Option String → Bool
is_set none = false
is_set (some text) = not (str_eq text "")

abbrev pub interval_over : Option ℤ → ℤ → ℤ → Bool
interval_over none now interval = true
interval_over (some cursor_at) now interval = leb_ℤ (cursor_at +ℤ interval) now

unfoldable pub is_order_sync_due : Option ℤ → Option String → ℤ → ℤ → Bool
is_order_sync_due cursor_at resume_cursor now interval =
    if is_set resume_cursor then true else interval_over cursor_at now interval

pub record CursorCheckpoint : Type 0 where
  pub cursor_at : Option ℤ
  pub resume_cursor : Option String
  pub resume_since : Option ℤ
  pub resume_until : Option ℤ

unfoldable pub checkpoint_for : Bool → Bool → ℕ → ℤ → Option String → ℤ → Option CursorCheckpoint
checkpoint_for complete errored failed until resume_cursor since =
    if errored || not (failed == 0)
    then none
    else if complete
    then some (record {
      cursor_at = some until;
      resume_cursor = none;
      resume_since = none;
      resume_until = none;
    })
    else if is_set resume_cursor
    then some (record {
      cursor_at = none;
      resume_cursor = resume_cursor;
      resume_since = some since;
      resume_until = some until;
    })
    else none

pub record Page (Order : Type 0) : Type 0 where
  pub items : List Order
  pub next_cursor : Option String

pub record PullResult (Order Error : Type 0) : Type 0 where
  pub orders : List Order
  pub complete : Bool
  pub resume_cursor : Option String
  pub pages : ℕ
  pub error : Option Error

pub data ValueError : Type 0 where
  too_few_pages : ValueError

-- After a page that names its successor, or does not; `again` is the rest of the loop.
abbrev pub after_next :
    {Order Error : Type 0}
    → (List Order → List String → Option String → PullResult Order Error)
    → ℕ
    → List Order
    → List String
    → Option String
    → PullResult Order Error
after_next again pages orders seen none = record {
  orders = orders;
  complete = true;
  resume_cursor = none;
  pages = pages;
  error = none;
}
after_next again pages orders seen (some nxt) =
    if str_eq nxt ""
    then record {
      orders = orders;
      complete = true;
      resume_cursor = none;
      pages = pages;
      error = none;
    }
    else if mem_text nxt seen
    then record {
      orders = orders;
      complete = false;
      resume_cursor = none;
      pages = pages;
      error = none;
    }
    else again orders (nxt ∷ seen) (some nxt)

abbrev pub after_page :
    {Order Error : Type 0}
    → (List Order → List String → Option String → PullResult Order Error)
    → ℕ
    → List Order
    → List String
    → Result Error (Page Order)
    → PullResult Order Error
after_page again pages collected seen (err e) = record {
  orders = collected;
  complete = false;
  resume_cursor = none;
  pages = pages;
  error = some e;
}
after_page again pages collected seen (ok page) =
    after_next again (suc pages) (collected ++ page.items) seen page.next_cursor

-- The pages that are still allowed, and those that were fetched. The platform may answer the same
-- cursor differently each time: `fetch` is given the number of the call.
unfoldable pub pull_loop :
    {Order Error : Type 0}
    → (ℕ → Option String → Result Error (Page Order))
    → ℕ
    → ℕ
    → List Order
    → List String
    → Option String
    → PullResult Order Error
pull_loop fetch zero pages collected seen cursor = record {
  orders = collected;
  complete = false;
  resume_cursor = cursor;
  pages = pages;
  error = none;
}
pull_loop fetch (suc left) pages collected seen cursor =
    after_page (λ orders seen' cursor'. pull_loop fetch left (suc pages) orders seen' cursor') pages
      collected seen (fetch pages cursor)

-- `seen` at the start
abbrev pub seen_of : Option String → List String
seen_of none = []
seen_of (some cursor) = if str_eq cursor "" then [] else cursor ∷ []

unfoldable pub pull_order_pages :
    {Order Error : Type 0}
    → (ℕ → Option String → Result Error (Page Order))
    → Option String
    → ℤ
    → Result ValueError (PullResult Order Error)
unfolding pull_loop
pull_order_pages fetch start_cursor max_pages =
    if ltb_ℤ max_pages (pos 1)
    then err too_few_pages
    else ok (pull_loop fetch (pos_part max_pages) 0 [] (seen_of start_cursor) start_cursor)
